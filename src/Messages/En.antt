-- ===== src/Messages/En.antt =====
-- web/src/i18n.ts, lines 6-155: the English messages.
use easy_webdav.Prelude.{[], ◌∷◌}
use easy_webdav.Messages.Catalogue.{Catalogue, line, steps}

abbrev pub en : Catalogue
en =
    ("appName", line "easy-webdav")
    ∷ ("login", line "Sign in")
    ∷ ("setup", line "Create administrator")
    ∷ ("username", line "Username")
    ∷ ("password", line "Password")
    ∷ ("createAdmin", line "Create administrator")
    ∷ ("authDescription", line "Sign in to manage your files and account.")
    ∷ ("insecure", line "This connection is not encrypted. Use TLS or a trusted private network.")
    ∷ ("cancel", line "Cancel")
    ∷ ("save", line "Save")
    ∷ ("saved", line "Saved successfully")
    ∷ ("close", line "Close")
    ∷ ("search", line "Search files")
    ∷ ("refresh", line "Refresh")
    ∷ ("signOut", line "Sign out")
    ∷ ("light", line "Switch to light theme")
    ∷ ("dark", line "Switch to dark theme")
    ∷ ("root", line "Root")
    ∷ ("actions", line "Actions")
    ∷ ("name", line "Name")
    ∷ ("size", line "Size")
    ∷ ("modified", line "Modified")
    ∷ ("files", line "My files")
    ∷ ("fileBrowser", line "File browser")
    ∷ ("filesOf", line "Files of {name}")
    ∷ ("upload", line "Upload")
    ∷ ("uploadFolder", line "Upload folder")
    ∷ ("uploading", line "Uploading")
    ∷ ("dropFiles", line "Drop files here to upload")
    ∷ ("newFolder", line "New folder")
    ∷ ("folderName", line "Folder name")
    ∷ ("rename", line "Rename")
    ∷ ("newName", line "New name")
    ∷ ("move", line "Move")
    ∷ ("moveTo", line "New path for {name} (relative to the root)")
    ∷ ("copy", line "Copy")
    ∷ ("copyName", line "Copy as")
    ∷ ("download", line "Download")
    ∷ ("downloadSelected", line "Download selected")
    ∷ ("delete", line "Delete")
    ∷ ("confirmDelete", line "Permanently delete {name}? This cannot be undone.")
    ∷ ("showHidden", line "Show hidden files")
    ∷ ("empty", line "This folder is empty")
    ∷ ("noResults", line "No matching files")
    ∷ ("folder", line "Folder")
    ∷ ("file", line "File")
    ∷ ("uploadFailed", line "Upload failed")
    ∷ ("uploadComplete", line "Upload finished")
    ∷ ("quotaExceeded", line "Not enough space left in this account")
    ∷ ("quotaRemaining", line "{size} remaining")
    ∷ (
      "dropUnsupported",
      line "This browser cannot read dropped folders; use the folder button instead",
    )
    ∷ ("sortAscending", line "Sort ascending")
    ∷ ("sortDescending", line "Sort descending")
    ∷ ("preview", line "Preview")
    ∷ ("previewUnsupported", line "Preview is not available for this file type")
    ∷ ("previewTooLarge", line "This file is too large to preview")
    ∷ ("previewPrevious", line "Previous image")
    ∷ ("previewNext", line "Next image")
    ∷ ("rawFile", line "Open raw file")
    ∷ ("viewingUser", line "Viewing files for {name}")
    ∷ ("leaveUser", line "Back to my files")
    ∷ ("users", line "Users")
    ∷ ("addUser", line "Add user")
    ∷ ("editUser", line "Edit user")
    ∷ ("rootDir", line "Root directory")
    ∷ ("permission", line "Permission")
    ∷ ("readOnly", line "Read only")
    ∷ ("readWrite", line "Read and write")
    ∷ ("quota", line "Quota")
    ∷ ("unlimited", line "Unlimited")
    ∷ ("usage", line "Usage")
    ∷ ("status", line "Status")
    ∷ ("enabled", line "Enabled")
    ∷ ("disabled", line "Disabled")
    ∷ ("browseFiles", line "Browse files")
    ∷ ("edit", line "Edit")
    ∷ ("resetPassword", line "Reset password")
    ∷ ("enable", line "Enable")
    ∷ ("disable", line "Disable")
    ∷ ("confirmUserDelete", line "Delete user {name}? Their files will be kept.")
    ∷ ("lastAdminBlocked", line "The last active administrator cannot be disabled or deleted")
    ∷ ("newPasswordFor", line "New password for {name}")
    ∷ ("passwordTooShort", line "The password must be at least 8 characters long")
    ∷ (
      "invalidUserForm",
      line "Enter a username, a password of at least 8 characters and a quota of zero or more",
    )
    ∷ ("quotaMode", line "Quota unit")
    ∷ ("quotaAmount", line "Quota amount")
    ∷ ("overview", line "Overview")
    ∷ ("totalUsers", line "Total users")
    ∷ ("activeUsers", line "Active users")
    ∷ ("totalUsed", line "Total used")
    ∷ ("diskFree", line "Disk free")
    ∷ ("unavailable", line "Unavailable")
    ∷ ("largestUsers", line "Largest users")
    ∷ ("recalculate", line "Recalculate usage")
    ∷ ("recalculated", line "Usage recalculated")
    ∷ ("settings", line "Settings")
    ∷ ("siteName", line "Site name")
    ∷ ("defaultQuota", line "Default quota")
    ∷ ("defaultPermission", line "Default permission")
    ∷ ("saveSettings", line "Save settings")
    ∷ ("account", line "Account")
    ∷ ("currentPassword", line "Current password")
    ∷ ("newPassword", line "New password")
    ∷ ("changePassword", line "Change password")
    ∷ ("storageUsed", line "Storage used")
    ∷ ("selected", line "{count} selected")
    ∷ ("conflict", line "File already exists")
    ∷ ("conflictQuestion", line "\"{name}\" already exists in this folder.")
    ∷ ("conflictOverwrite", line "Overwrite")
    ∷ ("conflictSkip", line "Skip")
    ∷ ("conflictRename", line "Keep both")
    ∷ ("conflictApplyAll", line "Apply this choice to all remaining conflicts")
    ∷ ("filesOnly", line "Files only")
    ∷ ("connect", line "Connect")
    ∷ ("connectTitle", line "Connect a WebDAV client")
    ∷ (
      "connectIntro",
      line "Mount the same files from any WebDAV client with the account you are signed in as.",
    )
    ∷ ("connectCopy", line "Copy")
    ∷ ("connectCopied", line "Copied")
    ∷ ("connectCopyFailed", line "Copy failed, select the text manually")
    ∷ (
      "connectCredentials",
      line "Use your own username and password when the client asks for credentials.",
    )
    ∷ (
      "connectInsecureWarning",
      line
          "This address is plain HTTP: the password travels unencrypted. Use TLS or a trusted private network.",
    )
    ∷ ("connectWindows", line "Windows")
    ∷ (
      "connectWindowsSteps",
      steps (
          "Open \"This PC\", right click and choose \"Map network drive\""
          ∷ "Paste the address below"
          ∷ "Tick \"Connect using different credentials\" and enter your username and password"
          ∷ []),
    )
    ∷ ("connectMac", line "macOS")
    ∷ (
      "connectMacSteps",
      steps (
          "In Finder choose Go - Connect to Server (Command-K)" ∷ "Paste the address below"
          ∷ "Choose \"Registered User\" and enter your credentials" ∷ []),
    )
    ∷ ("connectLinux", line "Linux (davfs2)")
    ∷ (
      "connectLinuxSteps",
      steps (
          "Install davfs2, for example apt install davfs2"
          ∷ "Create the mount point, then run the command below"
          ∷ "Enter your username and password when prompted" ∷ []),
    )
    ∷ (
      "connectRcloneSteps",
      steps (
          "Run the first command to create the remote"
          ∷ "Enter your password when rclone asks for it"
          ∷ "Run the second command to check that the listing works" ∷ []),
    )
    ∷ ("connectMobile", line "Mobile")
    ∷ (
      "connectMobileSteps",
      steps (
          "Add a WebDAV account in your app" ∷ "Use the URL below as the server address"
          ∷ "Sign in with your own username and password" ∷ []),
    )
    ∷ ("errors.generic", line "Request failed")
    ∷ ("errors.invalidCredentials", line "Invalid username or password")
    ∷ ("errors.unauthenticated", line "Your session expired, please sign in again")
    ∷ ("errors.readOnly", line "This account is read-only")
    ∷ ("errors.invalidPath", line "The path is invalid")
    ∷ ("errors.fileTooLarge", line "The file is too large to preview")
    ∷ ("errors.quotaExceeded", line "Storage quota exceeded")
    ∷ ("errors.rateLimited", line "Too many attempts, please wait a moment")
    ∷ ("errors.userExists", line "That username is already taken")
    ∷ ("errors.lastAdmin", line "The last administrator cannot be removed")
    ∷ ("errors.forbidden", line "You do not have permission to do that")
    ∷ ("errors.setupLocked", line "Setup has already been completed")
    ∷ []
