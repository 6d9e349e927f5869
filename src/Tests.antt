-- ===== src/Tests.antt =====
-- The theorems at concrete inputs, and runs of the definitions.
mod MysqlLogin
mod Proxies
mod Files
mod PostgresLogin
mod PostgresStartup
mod OracleLogin
mod Serving
mod Running
mod Connecting
