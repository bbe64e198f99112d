-- ===== src/Lib.antt =====
-- Dumbo_UCY: asynchronous Byzantine fault tolerant broadcast and agreement among N parties of which
-- at most f are faulty, in Python greenlets. A block is agreed on in layers: a broadcast protocol
-- hands a party's value to the others, a binary agreement decides which values count, and a common
-- subset puts the two together; threshold signatures supply the common coin.
--
-- Parts and files (paths from the repository's root):
--   * Rbc/: honeybadgerbft/core/reliablebroadcast.py. Rbc/Merkle.antt has `merkleTree`,
--     `getMerkleBranch` and `merkleVerify` on byte strings as lists of numbers; Rbc/Coding.antt has
--     `encode` and `decode`; Rbc/Handler.antt has the state of one `reliablebroadcast` call, its
--     start and one turn of its receive loop (`on_val`, `on_echo`, `on_ready` for the branches
--     VAL, ECHO, READY; `output` and `decode_output` for the return).
--   * Broadcast/Consistent.antt: dumbobft/core/consistentbroadcast.py, in the same manner
--     (`on_send`, `on_echo`, `on_final` for CBC_SEND, CBC_ECHO, CBC_FINAL).
--   * Broadcast/Strong.antt: speedmvba/core/spbc.py (`on_send`, `on_echo`, `on_ready`, `on_final`
--     for SPBC_SEND, SPBC_ECHO, SPBC_READY, SPBC_FINAL).
--   * Broadcast/Provable.antt: dumbobft/core/provablereliablebroadcast.py over the tables of
--     Rbc/Handler.antt (`on_val`, `check_echo`, `on_ready` for VAL, ECHO, READY).
--   * Broadcast/Certificate.antt: speedydumbobft/core/provablebroadcast.py.
--   * Broadcast/Validators.antt: dumbobft/core/validators.py and speedydumbobft/core/validators.py.
--   * Aba/: honeybadgerbft/core/binaryagreement.py. Aba/Defs.antt has the tables and messages;
--     Aba/Receive.antt the greenlet `_recv` with `handle_conf_messages`; Aba/Rounds.antt the main
--     greenlet from one wait to the next, `wait_for_conf_values` and `set_new_estimate`.
--   * Coin.antt: honeybadgerbft/core/commoncoin.py; `receive` is a turn of `_recv`, `called` and
--     `waited` are the two halves of `getCoin`.
--   * Block.antt: honeybadgerbft/core/honeybadger_block.py; `collect` is its waiting loop,
--     `decryptions` the last one.
--   * Mule/Fast.antt: mulebft/core/fastpath.py; Mule/Fast/Receive.antt has `handle_messages`
--     (`on_vote`, `on_decide` for VOTE, DECIDE), Mule/Fast/Slots.antt `one_slot`, before its wait
--     (`start_slot`) and after it (`finish_slot`), and the loop over the slots.
--   * Mule/TwoValue.antt: mulebft/core/twovalueagreement.py; Mule/TwoValue/Receive.antt has `recv`,
--     Mule/TwoValue/Rounds.antt `main_loop`. dumbobft/core/haltingtwovalueagreement.py is the same
--     but for the coin of the early rounds, a parameter here.
--   * Dispersal/Disperse.antt: dumbomvba/core/provabledispersal.py (`on_store`, `on_stored`,
--     `on_lock`, `on_locked` for STORE, STORED, LOCK, LOCKED); Dispersal/Recast.antt:
--     dumbomvba/core/rebroadcast.py.
--   * Crypto/Boldyreva.antt: crypto/threshsig/boldyreva.py over a pairing group;
--     Crypto/MillerRabin.antt: crypto/threshsig/millerrabin.py; Crypto/Tpke.antt:
--     crypto/threshenc/tpke.py, with the dealer of Crypto/Boldyreva.antt.
--   * Subset.antt: honeybadgerbft/core/commonsubset.py; `recv_rbc` and `recv_aba` are its greenlets
--     after their wait, `outcome` what follows `joinall`. Subset/Dumbo.antt:
--     dumbobft/core/dumbocommonsubset.py, whose last loop is a pass at each turn;
--     Subset/Validated.antt: dumbobft/core/validatedcommonsubset.py.
--   * Shared/: tests, lists, dictionaries and sets as Python has them, the receive loop
--     (Shared/Loop.antt: a turn goes on, returns or raises) and the counting of quorums.
--
-- State and order. A call of a protocol is a state record; `receive()` is the list of messages that
-- arrive, in any order and from any sender, so a theorem about all lists is one about all schedules
-- and all behaviour of the other parties. `send` is the list of what leaves. An exception that
-- leaves a loop is a result of its turn; a caught one is a verdict. Two greenlets of one call
-- (binary agreement, coin, fast path) are interleaved at the places where one of them waits, as
-- gevent does.
--
-- Parameters. Arguments of the definitions because they are not in the repository: the erasure code
-- `zfec`, SHA-256 and ECDSA (coincurve). Arguments because they stand behind an interface of the
-- protocol: `input()`, `coin(r)` and the outputs of the broadcasts and agreements are events, and the
-- methods of the threshold signature keys (crypto/threshsig/boldyreva.py) are fields of a record. The
-- signatures themselves stand on the pairing group of charm, and the coin on their methods.
-- Theorems name what they assume of them. Verification with ECDSA has three outcomes, True,
-- False and, for a signature that cannot be parsed, a ValueError that `except AssertionError` lets
-- through.
--
-- Fuel. `ceil_log2` and `siblings` recur on a bound (the number itself) that is at least the number
-- of turns that the Python loop makes, since each turn halves the index; `halve` has n - 1 turns to
-- halve n - 1. Every other loop is structural; a receive loop ends with the messages.
--
-- Not modelled: log output and timing; sockets, processes and launch scripts; messages that are no
-- tuples of the protocol's kinds; serialisation and AES; the other protocols of the
-- repository (the nodes of Dumbo, Speedy Dumbo and Mule, the MVBA protocols, HotStuff and the fast
-- paths built on it).
pub mod Aba
pub mod Block
pub mod Broadcast
pub mod Coin
pub mod Crypto
pub mod Dispersal
pub mod Mule
pub mod Rbc
pub mod Shared
pub mod Subset
