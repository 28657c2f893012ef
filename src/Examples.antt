-- ===== src/Examples.antt =====
-- Runs of the model at concrete inputs, with a JWT library, a store of users and a hash that are
-- small functions.
mod Signer
mod Store
mod Accounts
mod Tokens
mod Http
mod Platform
mod Logs
mod Logging
mod Server
mod Chain
mod Startup
mod Orders
