-- ===== src/Rbc/Handler.antt =====
-- honeybadgerbft/core/reliablebroadcast.py: `reliablebroadcast`, the start of an instance and one
-- turn of its receive loop.
use dumbo_ucy.Shared.{
  ℕ, zero, suc, ◌+◌, ◌-◌, ◌*◌, Bool, true, false, not, Option, none, some, List, [], ◌∷◌, ◌==◌,
  nat_comparable, bytes_comparable, ltb, leb, ◌&&◌, ◌||◌, if◌then◌else◌, length, get_elem?, get_or,
  set, replicate,
}
use dumbo_ucy.Shared.Dict.{Dict, get_or_default, put, has_key, contains, add}
use dumbo_ucy.Shared.Loop.{Turn, next, done, fail}
use dumbo_ucy.Rbc.Merkle.{Bytes, merkle_tree, merkle_verify, get_merkle_branch}
use dumbo_ucy.Rbc.Coding.{encode, decode}

-- The arguments of `reliablebroadcast`, with the hash function and the zfec library.
pub record Params : Type 0 where
  pub hash : Bytes → Bytes
  pub zfec_encode : ℕ → ℕ → List Bytes → List Bytes
  pub zfec_decode : ℕ → ℕ → List Bytes → List ℕ → List Bytes
  pub pid : ℕ
  pub n : ℕ
  pub f : ℕ
  pub leader : ℕ

-- The first component of a Python message tuple is the constructor.
pub data Msg : Type 0 where
  val : Bytes → List Bytes → Bytes → Msg
  echo : Bytes → List Bytes → Bytes → Msg
  ready : Bytes → Msg

-- `send(i, o)`
abbrev pub Sent : Type 0
Sent = ℕ × Msg

pub record State : Type 0 where
  pub from_leader : Option Bytes
  pub stripes : Dict Bytes (List (Option Bytes))
  pub echo_counter : Dict Bytes ℕ
  pub echo_senders : List ℕ
  pub readies : Dict Bytes (List ℕ)
  pub ready_sent : Bool
  pub ready_senders : List ℕ

abbrev pub init : State
init = record {
  from_leader = none;
  stripes = [];
  echo_counter = [];
  echo_senders = [];
  readies = [];
  ready_sent = false;
  ready_senders = [];
}

-- `assert merkleVerify(…)` in a `try`: a false result and a failed assertion are one.
abbrev pub is_true : Option Bool → Bool
is_true none = false
is_true (some b) = b

module _ (p : Params) where
  -- K, EchoThreshold, ReadyThreshold, OutputThreshold
  abbrev pub recover_threshold : ℕ
  recover_threshold = p.n - 2 * p.f

  abbrev pub echo_threshold : ℕ
  echo_threshold = p.n - p.f

  abbrev pub ready_threshold : ℕ
  ready_threshold = p.f + 1

  abbrev pub output_threshold : ℕ
  output_threshold = 2 * p.f + 1

  -- for i in range(N): send(i, o), down from `count` recipients
  unfoldable pub send_all : ℕ → ℕ → Msg → List Sent
  send_all i zero o = []
  send_all i (suc count) o = (i, o) ∷ send_all (i + 1) count o

  unfoldable pub broadcast : Msg → List Sent
  broadcast o = send_all 0 p.n o

  -- The leader's loop `for i in range(N): send(i, ('VAL', …))`.
  unfoldable pub send_vals : ℕ → List Bytes → List Bytes → List Sent
  send_vals i mt [] = []
  send_vals i mt (stripe ∷ stripes) =
      (i, val (get_or mt 1 []) (get_merkle_branch i mt) stripe) ∷ send_vals (i + 1) mt stripes

  -- What is sent before the loop, by the leader with input `m`; `none` is an exception.
  unfoldable pub disperse : Bytes → Option (List Sent)
  disperse m = elim (encode p.zfec_encode recover_threshold p.n m) [
    | none ↦ none
    | some stripes ↦ elim (merkle_tree p.hash stripes) [
      | none ↦ none
      | some mt ↦ some (send_vals 0 mt stripes)
    ]
  ]

  unfoldable pub start : Bytes → Option (List Sent)
  start m =
      if leb (3 * p.f + 1) p.n && (ltb p.leader p.n && ltb p.pid p.n)
      then (if p.pid == p.leader then disperse m else some [])
      else none

  -- stripes[roothash], where the defaultdict makes [None for _ in range(N)]
  abbrev pub stripes_of : State → Bytes → List (Option Bytes)
  stripes_of s roothash = get_or_default s.stripes (replicate p.n none) roothash

  abbrev pub echoes : State → Bytes → ℕ
  echoes s roothash = get_or_default s.echo_counter 0 roothash

  abbrev pub readies_of : State → Bytes → List ℕ
  readies_of s roothash = get_or_default s.readies [] roothash

  -- `none` is an exception: the decoder's, or `assert _roothash == roothash`.
  unfoldable pub reencode : Bytes → Bytes → Option Bytes
  reencode roothash m = elim (encode p.zfec_encode recover_threshold p.n m) [
    | none ↦ none
    | some stripes ↦ elim (merkle_tree p.hash stripes) [
      | none ↦ none
      | some mt ↦ if get_or mt 1 [] == roothash then some m else none
    ]
  ]

  unfoldable pub decode_output : State → Bytes → Option Bytes
  unfolding reencode
  decode_output s roothash =
      elim (decode p.zfec_decode recover_threshold p.n (stripes_of s roothash)) [
        | none ↦ none
        | some m ↦ reencode roothash m
      ]

  -- `return decode_output(roothash)` after `sent`
  unfoldable pub finish : List Sent → Option Bytes → Turn State Sent Bytes
  finish sent none = fail sent
  finish sent (some m) = done sent m

  -- if len(ready[roothash]) >= OutputThreshold and echoCounter[roothash] >= K: return …
  unfoldable pub output : State → List Sent → Bytes → Turn State Sent Bytes
  unfolding finish
  output s sent roothash =
      if leb output_threshold (length (readies_of s roothash))
        && leb recover_threshold (echoes s roothash)
      then finish sent (decode_output s roothash)
      else next s sent

  -- `readySent = True; broadcast(('READY', roothash))` where the guard of the caller holds
  unfoldable pub send_ready : Bool → State → Bytes → State × List Sent
  send_ready enough s roothash =
      if enough && not s.ready_sent
      then (record s { ready_sent = true }, broadcast (ready roothash))
      else (s, [])

  -- stripes[roothash][sender] is not None; `none` is an IndexError
  unfoldable pub has_stripe : State → Bytes → ℕ → Option Bool
  has_stripe s roothash sender =
      if has_key s.stripes roothash
      then (elim (get_elem? (stripes_of s roothash) sender) [
        | none ↦ none
        | some none ↦ some false
        | some (some b) ↦ some true
      ])
      else some false

  unfoldable pub on_val : State → ℕ → Bytes → List Bytes → Bytes → Turn State Sent Bytes
  on_val s sender roothash branch stripe = elim s.from_leader [
    | some root ↦ next s []
    | none ↦
        if not (sender == p.leader)
        then next s []
        else if is_true (merkle_verify p.hash p.n stripe roothash branch p.pid)
        then next (record s { from_leader = some roothash })
            (broadcast (echo roothash branch stripe))
        else next s []
  ]

  -- The part of the ECHO branch that begins with `# Update`.
  unfoldable pub record_echo : State → ℕ → Bytes → Bytes → State
  record_echo s sender roothash stripe = record s {
    stripes = put s.stripes roothash (set (stripes_of s roothash) sender (some stripe));
    echo_senders = add s.echo_senders sender;
    echo_counter = put s.echo_counter roothash (echoes s roothash + 1);
  }

  -- The rest of the ECHO branch, once `stripes[roothash][sender] is not None` is known.
  unfoldable pub check_echo :
      State → ℕ → Bytes → List Bytes → Bytes → Option Bool → Turn State Sent Bytes
  check_echo s sender roothash branch stripe none = fail []
  check_echo s sender roothash branch stripe (some known) =
      if known || contains s.echo_senders sender
      then next s []
      else if is_true (merkle_verify p.hash p.n stripe roothash branch sender)
      then (let s' = record_echo s sender roothash stripe in
          let (s'', sent) = send_ready (leb echo_threshold (echoes s' roothash)) s' roothash in
          output s'' sent roothash)
      else next s []

  unfoldable pub on_echo : State → ℕ → Bytes → List Bytes → Bytes → Turn State Sent Bytes
  unfolding check_echo
  on_echo s sender roothash branch stripe =
      check_echo s sender roothash branch stripe (has_stripe s roothash sender)

  unfoldable pub record_ready : State → ℕ → Bytes → State
  record_ready s sender roothash = record s {
    readies = put s.readies roothash (add (readies_of s roothash) sender);
    ready_senders = add s.ready_senders sender;
  }

  unfoldable pub on_ready : State → ℕ → Bytes → Turn State Sent Bytes
  on_ready s sender roothash =
      if contains (readies_of s roothash) sender || contains s.ready_senders sender
      then next s []
      else (let s' = record_ready s sender roothash in
          let (s'', sent) =
            send_ready (leb ready_threshold (length (readies_of s' roothash))) s' roothash in
          output s'' sent roothash)

  -- One turn of `while True`, for the message that `receive()` returns.
  unfoldable pub handle : State → ℕ × Msg → Turn State Sent Bytes
  handle s (sender, val roothash branch stripe) = on_val s sender roothash branch stripe
  handle s (sender, echo roothash branch stripe) = on_echo s sender roothash branch stripe
  handle s (sender, ready roothash) = on_ready s sender roothash
