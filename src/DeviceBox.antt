-- ===== src/DeviceBox.antt =====
-- The device side, DeviceBox/ of the repository.
pub mod DropboxFolder
pub mod DeviceConfig
pub mod StringFormat
pub mod DropboxClient
pub mod Controller
pub mod StreamingHandler
pub mod SplitHandler
pub mod Client
pub mod DeviceBoxMain
