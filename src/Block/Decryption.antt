-- ===== src/Block/Decryption.antt =====
-- What the block holds: the proposals of the common subset, in order.
use mathlib.Core.Option
use dumbo_ucy.Shared.{Option, nat_comparable}
use dumbo_ucy.Shared.Dict.{Dict}
