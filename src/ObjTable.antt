-- ===== src/ObjTable.antt =====
-- go/cmd/gcsobjtable: the object table of the global control store. `Database` is db.go; `Server` is
-- the state in main.go, `Locations` and `Recovery` its handlers. The modules below hold the proofs.
pub mod Database
pub mod Server
pub mod Locations
pub mod Recovery
pub mod Trace
pub mod AppendFile
pub mod Startup
pub mod Sqlite
mod Tests
