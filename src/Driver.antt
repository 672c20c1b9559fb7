-- ===== src/Driver.antt =====
-- The driver that runs in the job's pod.
pub mod Connect
pub mod Run
pub mod Results
pub mod Report
pub mod Main
pub mod Exit
pub mod Process
pub mod CommandLine
pub mod Install
pub mod Ends
