-- ===== src/UnitTests.antt =====
-- The unit tests of the repository, of which each is a statement of the model, and their runs. An
-- `assert_eq!` is an equation, `expect` an equation with `ok`, and a `match` with one arm that does
-- not panic a predicate with one case that is not empty.
mod Protocol
mod Bridge
mod Transport
mod Device
mod Dummy
mod Pn532
