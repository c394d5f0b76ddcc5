-- ===== src/Tests.antt =====
-- Tests on concrete inputs, and the theorems at inputs that meet their hypotheses.
mod Data
mod Policies
mod Firewall
mod Accounts
mod Dns
mod Network
mod Migrations
mod Validation
mod Http
mod Daemon
mod Traffic
mod Services
