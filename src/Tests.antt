-- ===== src/Tests.antt =====
-- Concrete runs of the modelled code.
mod Runtime
mod Traffic
mod LinkTicket
mod Signing
mod Exchange
mod Identity
mod Oauth
mod Challenge
mod Callback
mod Enterprise
mod Pages
mod Cookies
mod Setup
mod Completed
mod Tokens
mod Recovered
mod Once
