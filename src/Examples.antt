-- ===== src/Examples.antt =====
-- The theorems applied to concrete mail, folders, queries and accounts.
mod Database
mod Glue
mod Folder
mod Lists
mod Texts
mod Services
mod Tables
mod Servers
mod Drafting
mod SignIn
