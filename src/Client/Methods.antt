-- ===== src/Client/Methods.antt =====
-- client.py: the methods of `KeeperHubClient`, one HTTP exchange each, but for the second try of
-- `_post_call` and the second path of `wallet_address`.
mod Posts
mod Runs
mod Status
unfoldable pub use Posts.*
unfoldable pub use Runs.*
unfoldable pub use Status.*
