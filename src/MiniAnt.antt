-- ===== src/MiniAnt.antt =====
-- mini_ant: the containers and the text routines of the crawler.
mod Examples
pub mod Hash
pub mod Queue
pub mod Array
pub mod Url
pub mod Domain
mod UrlExamples
pub mod Sock
pub mod Dns
pub mod Crawl
pub mod Http
pub mod Page
pub mod Poll
pub mod Resolver
pub mod Loop
