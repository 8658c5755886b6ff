-- ===== src/Chain.antt =====
-- What a call of the events contract runs in: the ledger it reads (`Env`), the contract's storage and
-- the effects that it has had (`State`), and calls as state passing with failure.
mod Data
mod Calls
pub mod Steady
pub mod Focus
pub use boundless_contract.Host.{Result, ok, err, trap}
unfoldable pub use boundless_contract.Host.{
  HostCall, pure, raise, abort, gets, asks, ok_or, modify, fail_if, when, is_ok, ◌>>=◌, ◌>>◌,
}
pub use Data.*
unfoldable pub use Calls.*
