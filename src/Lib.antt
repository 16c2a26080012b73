-- ===== src/Lib.antt =====
-- easy-webdav: the panel's logic, that is the part of the program that runs in the browser (web/src).
--
-- The panel is a Vue application in front of an HTTP server. Its parts, and how they meet:
--   - a session store asks the server who is signed in; the router's guard reads the store before
--     each navigation, and the login page changes it;
--   - the file browser shows the entries of the directory that the address names, filters, sorts and
--     selects them, asks what is to happen to files of a taken name, and hands files to the uploader;
--   - the uploader cuts a file into chunks and sends them with three workers over one queue;
--   - the preview overlay shows one file, and colours the text of source files as HTML;
--   - sizes and quotas, and the messages in two languages, serve all of them.
--
-- Which file models which part:
--   - Prelude: lists, texts (lists of UTF-16 units), decimals and paths, shared by the others;
--   - Screen: a template as the list of its texts and controls, each control with the event that it
--     fires, and the events that a screen offers; Screen/Labels the messages that it asks for;
--   - Floats: what the code relies on in its floating-point divisions, a record of a function with the
--     laws that correctly rounded arithmetic satisfies on safe integers; Floats/FixedPoint fills it;
--   - Api: web/src/api.ts. Problem is ApiError and the outcome of a request; Request is request, Calls
--     the table api; Url is endpoint, fileQuery, rawURL and downloadURL, and withUser of
--     web/src/uploader.ts; Types is what the endpoints answer with;
--   - Upload: State is web/src/upload-state.ts; Chunks, Workers and Session are runUpload of
--     web/src/uploader.ts, namely the cutting of the file, the workers, and the call from the creation
--     of the session to its completion; Progress is the bar of an upload. The modules below Workers
--     and Session prove, Lifecycle among them by a refinement of the stages of one chunk;
--   - Session: Store is web/src/store.ts, Guard is router.beforeEach of web/src/router.ts, Login and
--     LoginPage are web/src/views/LoginView.vue;
--   - Format: web/src/format.ts. Size is formatSize, Quota is splitQuota and quotaToBytes, Usage is
--     usagePercent;
--   - Messages: En, Zh and Locale are web/src/i18n.ts, ErrorCodes is web/src/error-codes.ts;
--   - Preview: Kind, Escape, Pattern and Highlight are web/src/highlight.ts, Overlay with its Template
--     is web/src/components/PreviewOverlay.vue;
--   - Browser: web/src/views/FileBrowserView.vue. Path is the address arithmetic, Listing the rows,
--     Conflicts the questions about taken names, Panel the operations and what they show, Drop the
--     collecting of dropped files, Routing what the addresses match in web/src/router.ts. Refs is the
--     state of the view as a whole, View its handlers, with Template what it shows and Steps its
--     transition system; Reader and Targets prove along its runs;
--   - Connect: Base and Info are web/src/connect.ts, Dialog is web/src/components/ConnectDialog.vue;
--     Reference describes a base by its segments;
--   - Admin: Users, Settings, Overview and Account are the views of these names in web/src/views,
--     each with its Template; Forms is the form of UsersView.vue with its requests, Fields what the
--     templates share; LastAdmin, UserForm, Users/Buttons, Overview/Largest and Settings/RoundTrip prove;
--   - Shell: web/src/App.vue; Laws is about its menu, Texts about the messages of all templates.
--
-- A screen offers the events of its enabled controls. A step of the file browser is an event that is
-- offered, one of its section's own events, a choice of files, a navigation that leaves the view mounted, or
-- an answer; an answer may come in any order, and at another address than the one it was asked for at. The
-- user who is signed in stays the same along a run.
-- A request is modelled by its outcome: a Reply is a value or a Problem, and an operation that awaits
-- requests takes their outcomes as arguments. Code between two awaits runs without interruption, so a
-- worker of the uploader advances in one step per answered request; a run is given the list of the
-- answers in the order of their arrival, and no order is assumed. A list that ends before the workers
-- have returned leaves the call waiting. Loops are structural, but for the search of the highlighter,
-- whose fuel is the length of the text: each round takes a unit of it at least.
-- Numbers are natural; where the source divides or rounds, the bound below which its floating-point
-- result is exact stands at the definition.
--
-- Not modelled: the Go server (cmd, internal), with its copy of a WebDAV library (internal/webdav/xnet)
-- and the built panel (internal/web/dist), which is generated from web; web/src/main.ts; the layout and
-- the styles; and dates, whose text is the platform's. The encoders of addresses, the taking apart of an
-- address, the comparison of names and the lower case are parameters, and so is the list that `t` gives
-- for the steps of the connection help. Of the component library it is taken that a button that is
-- disabled or loading fires nothing, unless it submits a form, and that a dialog can be closed by a button
-- of its own.
pub mod Prelude
pub mod Screen
pub mod Floats
pub mod Api
pub mod Upload
pub mod Session
pub mod Format
pub mod Messages
pub mod Preview
pub mod Browser
pub mod Connect
pub mod Admin
pub mod Shell
