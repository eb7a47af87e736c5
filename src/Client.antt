-- ===== src/Client.antt =====
-- client/client.go: clients for the resources of the Kubernetes API, and the preparations and
-- checks of an update. An action on `World × Obj` has, beside the world, the object at hand: in
-- the source that is one map in memory, which the preparations of an update write to.
mod Defaults
mod Discovery
pub mod Updating
pub mod Carrying
pub mod ServiceAccounts
unfoldable pub use Defaults.*
unfoldable pub use Discovery.*
