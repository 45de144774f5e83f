-- ===== src/Lib.antt =====
-- Verification of the browser front end of the base image: the scripts under rootfs/opt/noVNC/app.
--
-- Parts and files
-- - Browser: what the scripts use of the browser. WebSocket objects are numbered in the order of
--   their construction, with their readyState, and timers in the order in which they are set. It is
--   a model of the platform, not of code of the repository.
-- - Notification (rootfs/opt/noVNC/app/notificationService.js): connectWebSocket is `connect`,
--   disconnectWebSocket is `disconnect`, start, stop and the handlers of the socket are `start`, `stop`, `on_open`,
--   `on_close`, `on_message`; an event of the page, of the network or of a timer is one `step`.
-- - Terminal (rootfs/opt/noVNC/app/terminal.js): openTerminal, closeTerminal, resizeTerminal,
--   enableTerminal, disableTerminal under the same names in snake case, and the handlers as above.
-- - FileManager (rootfs/opt/noVNC/app/fileManager.js): Html has escapeHtml and unescapeHtml, Path has
--   joinPath and the path of goUp, State the variables of the module and what the dialog shows, Connection the
--   WebSocket with opening and closing, Upload the class FileReaderModule, the object activeUpload
--   and the downloads, Dialog the actions, popovers and answers, Step one event. Protocol is the
--   conversation with the server about uploads, as a type.
-- - Ui (rootfs/opt/noVNC/app/ui.js), with a module per part:
--   Status has showStatus and hideStatus.
--   Session has updateVisualState, connect, reconnect, connectFinished, disconnectFinished,
--   securityFailed, checkWebData, credentials and setCredentials; Session.Phases is the abstract machine that it
--   implements.
--   Audio has toggleAudio, updateAudioVolume and updateAudio.
--   Keyboard has keyInput and keyboardinputReset, Keyboard.Focus showing, hiding and keeping the virtual
--   keyboard.
--   ControlBar has activateControlbar to controlbarHandleMouseDown, ControlBar.Step its listeners.
--   View has applyResizeMode, updateViewClip, toggleViewDrag and updateViewDrag.
--   Clipboard has the texts and updateClipboard to updateHostClipboardSync.
--   Fullscreen has toggleFullscreen and updateFullscreenButton.
--   Settings has initSetting to enableSetting, Settings.Handlers addSettingsHandlers with what
--   the handlers read.
--   Startup has start, fetchWebData, initSettings, checkWebData and buildWebSocketPath.
--   Listeners has addControlbarHandlers to addTerminalHandlers and how the browser calls what they
--   register: captured, bubbling and until a handler stops the propagation.
-- - Page (rootfs/opt/noVNC/app/ui.js): the session together with audio and the services; what the
--   handlers of the session and of the modals call of them.
-- - App (rootfs/opt/noVNC/app/ui.js): the page together with the view, the control bar, the clipboard
--   and the virtual keyboard, as connect, connectFinished and disconnectFinished keep them together.
-- - Pcm (rootfs/opt/noVNC/app/pcm-player.js): Samples has the encodings, and `feed`, `flush` and the
--   others go under their own names. Audio hands the messages of its socket to it.
-- - Prelude: shared names, lists measured by native numbers, and texts as lists of code units.
--
-- How they correspond. A script keeps its state in variables of a module; here it is a record, and
-- each function takes it and returns the new one. A statement that throws sets `threw`, and `f ⨾ g`
-- skips `g` then. What is sent is recorded, newest first, with the number of its socket. Handlers run
-- one at a time, so that an execution is a list of events; an event that the browser cannot deliver,
-- as a message on a closed socket or a timer that is not pending, changes nothing.
--
-- Bounds. Numbers are natural numbers: no function that is modelled leaves the range in which
-- JavaScript numbers are exact on files that exist, and the division of the progress is exact where
-- JavaScript rounds. The times of the PCM player are counted in 1 / (1000 * sampleRate) seconds,
-- in which they are whole numbers, and a sample is the exact quotient that JavaScript rounds to 32
-- bits. The upload loop takes a number of rounds per file and a number of files; a round
-- acknowledges a block of 512 KiB, so the number of blocks of the largest file is enough.
--
-- Parameters. What the settings are stored in is noVNC's module WebUtil: a record of operations with
-- laws, which a storage in memory keeps to (Ui.Settings.Memory).
--
-- What noVNC synchronises of the clipboard is a function of the permission and of its own setting.
--
-- Not modelled: the DOM apart from the fields named, logging, msgpack, xterm.js, Bootstrap, noVNC's
-- own modules, copies of which webutil.js and error-handler.js are, unmute.js, and the
-- servers behind the sockets. In the file manager, a read that still goes on when an answer out of turn
-- ends its file is dropped. That checkWebData replaces the web data is followed for webAuthSupport only:
-- the clipboard keeps the hostClipboardSync of the start.
pub mod Prelude
pub mod Browser
pub mod Notification
pub mod Terminal
pub mod FileManager
pub mod Pcm
pub mod Ui
pub mod Page
pub mod App
