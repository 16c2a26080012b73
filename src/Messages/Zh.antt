-- ===== src/Messages/Zh.antt =====
-- web/src/i18n.ts, lines 157-302: the Chinese messages.
use easy_webdav.Prelude.{[], ◌∷◌}
use easy_webdav.Messages.Catalogue.{Catalogue, line, steps}

abbrev pub zh : Catalogue
zh =
    ("appName", line "easy-webdav")
    ∷ ("login", line "登录")
    ∷ ("setup", line "创建管理员")
    ∷ ("username", line "用户名")
    ∷ ("password", line "密码")
    ∷ ("createAdmin", line "创建管理员")
    ∷ ("authDescription", line "登录以管理文件和账户。")
    ∷ ("insecure", line "当前连接未加密，请使用 TLS 或可信任的专用网络。")
    ∷ ("cancel", line "取消")
    ∷ ("save", line "保存")
    ∷ ("saved", line "保存成功")
    ∷ ("close", line "关闭")
    ∷ ("search", line "搜索文件")
    ∷ ("refresh", line "刷新")
    ∷ ("signOut", line "退出登录")
    ∷ ("light", line "切换到浅色主题")
    ∷ ("dark", line "切换到深色主题")
    ∷ ("root", line "根目录")
    ∷ ("actions", line "操作")
    ∷ ("name", line "名称")
    ∷ ("size", line "大小")
    ∷ ("modified", line "修改时间")
    ∷ ("files", line "我的文件")
    ∷ ("fileBrowser", line "文件浏览器")
    ∷ ("filesOf", line "{name} 的文件")
    ∷ ("upload", line "上传")
    ∷ ("uploadFolder", line "上传文件夹")
    ∷ ("uploading", line "正在上传")
    ∷ ("dropFiles", line "将文件拖到此处上传")
    ∷ ("newFolder", line "新建文件夹")
    ∷ ("folderName", line "文件夹名称")
    ∷ ("rename", line "重命名")
    ∷ ("newName", line "新名称")
    ∷ ("move", line "移动")
    ∷ ("moveTo", line "为 {name} 输入新路径（相对根目录）")
    ∷ ("copy", line "复制")
    ∷ ("copyName", line "复制为")
    ∷ ("download", line "下载")
    ∷ ("downloadSelected", line "下载所选")
    ∷ ("delete", line "删除")
    ∷ ("confirmDelete", line "确定永久删除 {name} 吗？此操作不可恢复。")
    ∷ ("showHidden", line "显示隐藏文件")
    ∷ ("empty", line "此文件夹为空")
    ∷ ("noResults", line "没有匹配的文件")
    ∷ ("folder", line "文件夹")
    ∷ ("file", line "文件")
    ∷ ("uploadFailed", line "上传失败")
    ∷ ("uploadComplete", line "上传完成")
    ∷ ("quotaExceeded", line "该账户空间不足")
    ∷ ("quotaRemaining", line "剩余 {size}")
    ∷ ("dropUnsupported", line "当前浏览器无法读取拖入的文件夹，请使用“上传文件夹”按钮")
    ∷ ("sortAscending", line "升序排列")
    ∷ ("sortDescending", line "降序排列")
    ∷ ("preview", line "预览")
    ∷ ("previewUnsupported", line "此文件类型不支持预览")
    ∷ ("previewTooLarge", line "文件过大，无法预览")
    ∷ ("previewPrevious", line "上一张图片")
    ∷ ("previewNext", line "下一张图片")
    ∷ ("rawFile", line "打开原文件")
    ∷ ("viewingUser", line "正在查看 {name} 的文件")
    ∷ ("leaveUser", line "返回我的文件")
    ∷ ("users", line "用户管理")
    ∷ ("addUser", line "添加用户")
    ∷ ("editUser", line "编辑用户")
    ∷ ("rootDir", line "根目录")
    ∷ ("permission", line "权限")
    ∷ ("readOnly", line "只读")
    ∷ ("readWrite", line "读写")
    ∷ ("quota", line "配额")
    ∷ ("unlimited", line "不限")
    ∷ ("usage", line "用量")
    ∷ ("status", line "状态")
    ∷ ("enabled", line "已启用")
    ∷ ("disabled", line "已禁用")
    ∷ ("browseFiles", line "浏览文件")
    ∷ ("edit", line "编辑")
    ∷ ("resetPassword", line "重设密码")
    ∷ ("enable", line "启用")
    ∷ ("disable", line "禁用")
    ∷ ("confirmUserDelete", line "删除用户 {name}？文件会保留。")
    ∷ ("lastAdminBlocked", line "最后一个可用管理员不能被禁用或删除")
    ∷ ("newPasswordFor", line "为 {name} 设置新密码")
    ∷ ("passwordTooShort", line "密码长度至少为 8 位")
    ∷ ("invalidUserForm", line "请填写用户名、至少 8 位密码以及不小于 0 的配额")
    ∷ ("quotaMode", line "配额单位")
    ∷ ("quotaAmount", line "配额数值")
    ∷ ("overview", line "概览")
    ∷ ("totalUsers", line "用户总数")
    ∷ ("activeUsers", line "活跃用户")
    ∷ ("totalUsed", line "总占用")
    ∷ ("diskFree", line "磁盘剩余")
    ∷ ("unavailable", line "不可用")
    ∷ ("largestUsers", line "用量最多的用户")
    ∷ ("recalculate", line "重新计算用量")
    ∷ ("recalculated", line "用量已重新计算")
    ∷ ("settings", line "系统设置")
    ∷ ("siteName", line "站点名称")
    ∷ ("defaultQuota", line "默认配额")
    ∷ ("defaultPermission", line "默认权限")
    ∷ ("saveSettings", line "保存设置")
    ∷ ("account", line "账户设置")
    ∷ ("currentPassword", line "当前密码")
    ∷ ("newPassword", line "新密码")
    ∷ ("changePassword", line "修改密码")
    ∷ ("storageUsed", line "已用空间")
    ∷ ("selected", line "已选 {count} 项")
    ∷ ("conflict", line "文件已存在")
    ∷ ("conflictQuestion", line "当前文件夹已存在“{name}”。")
    ∷ ("conflictOverwrite", line "覆盖")
    ∷ ("conflictSkip", line "跳过")
    ∷ ("conflictRename", line "保留两者")
    ∷ ("conflictApplyAll", line "对后续冲突沿用此选择")
    ∷ ("filesOnly", line "仅文件")
    ∷ ("connect", line "连接")
    ∷ ("connectTitle", line "连接 WebDAV 客户端")
    ∷ ("connectIntro", line "用当前登录账号，在任意 WebDAV 客户端挂载同一份文件。")
    ∷ ("connectCopy", line "复制")
    ∷ ("connectCopied", line "已复制")
    ∷ ("connectCopyFailed", line "复制失败，请手动选择文本")
    ∷ ("connectCredentials", line "客户端要求填写凭据时，使用你自己的用户名与密码。")
    ∷ ("connectInsecureWarning", line "该地址为明文 HTTP，密码将以未加密方式传输，请使用 TLS 或可信任的专用网络。")
    ∷ ("connectWindows", line "Windows")
    ∷ (
      "connectWindowsSteps",
      steps ("打开“此电脑”，右键选择“映射网络驱动器”" ∷ "粘贴下面的地址" ∷ "勾选“使用其他凭据连接”，填写用户名与密码" ∷ []),
    )
    ∷ ("connectMac", line "macOS")
    ∷ ("connectMacSteps", steps ("访达 → 前往 → 连接服务器（⌘K）" ∷ "粘贴下面的地址" ∷ "选择“注册的用户”并填写账号" ∷ []))
    ∷ ("connectLinux", line "Linux（davfs2）")
    ∷ (
      "connectLinuxSteps",
      steps ("安装 davfs2，例如 apt install davfs2" ∷ "创建挂载点后执行下面的命令" ∷ "按提示输入用户名与密码" ∷ []),
    )
    ∷ ("connectRcloneSteps", steps ("执行第一条命令创建远程" ∷ "rclone 询问时输入密码" ∷ "执行第二条命令确认可以列出文件" ∷ []))
    ∷ ("connectMobile", line "移动端")
    ∷ (
      "connectMobileSteps",
      steps ("在 App 中添加 WebDAV 账号" ∷ "服务器地址填下面的 URL" ∷ "使用你自己的用户名与密码登录" ∷ []),
    )
    ∷ ("errors.generic", line "请求失败")
    ∷ ("errors.invalidCredentials", line "用户名或密码不正确")
    ∷ ("errors.unauthenticated", line "会话已过期，请重新登录")
    ∷ ("errors.readOnly", line "该账户为只读权限")
    ∷ ("errors.invalidPath", line "路径不合法")
    ∷ ("errors.fileTooLarge", line "文件过大，无法预览")
    ∷ ("errors.quotaExceeded", line "超出存储配额")
    ∷ ("errors.rateLimited", line "尝试次数过多，请稍后再试")
    ∷ ("errors.userExists", line "该用户名已被占用")
    ∷ ("errors.lastAdmin", line "不能删除最后一个管理员")
    ∷ ("errors.forbidden", line "没有执行该操作的权限")
    ∷ ("errors.setupLocked", line "初始化已完成")
    ∷ []
