-- ===== src/Http.antt =====
-- sylar/http/http.h and sylar/http/http.cpp: methods, statuses, headers, parameters, requests and responses.
pub mod Names
pub mod Headers
pub mod Params
pub mod Message
pub mod Servlet
pub mod Connection
pub mod Session
pub mod Server
pub mod Response
mod Examples
