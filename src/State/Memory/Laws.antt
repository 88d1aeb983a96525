-- ===== src/State/Memory/Laws.antt =====
-- A snapshot brings back the state that it was taken of.
use dsn.Prelude.{List}
use dsn.Bytes.{Bytes}
use dsn.State.Memory.{State}
