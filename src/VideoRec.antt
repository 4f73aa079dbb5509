-- ===== src/VideoRec.antt =====
-- cs426-fall24/lab1 and lab2/lab1: the video recommendation service and the services behind it.
pub mod Run
pub mod Injector
pub mod Ranker
pub mod Users
pub mod Videos
pub mod Server
pub mod Recommend
pub mod Refresh
