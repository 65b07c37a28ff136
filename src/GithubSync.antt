-- ===== src/GithubSync.antt =====
-- internal/githubsync: the bounded, read-only GitHub client. The HTTP transport and the JSON decoders
-- are parameters; everything between them is here.
pub mod Types
pub mod Strings
pub mod Config
pub mod References
pub mod Wire
pub mod Action
pub mod Get
pub mod Client
mod Examples
