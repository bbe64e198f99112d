-- ===== src/Rbc/Tests.antt =====
-- Runs of the broadcast at one instance, and the theorems at concrete inputs.
use dumbo_ucy.Shared.{
  ℕ, ◌≡◌, ◌≢◌, ◌⊎◌, refl, true, none, some, List, [], ◌∷◌, ◌++◌, arith, map, replicate,
}
use dumbo_ucy.Shared.Dict.{get_or_default, put, has_key, contains, add}
use dumbo_ucy.Shared.Loop.{run, waiting, returned}
use dumbo_ucy.Rbc.Merkle.{Bytes, merkle_tree, merkle_verify, get_merkle_branch}
use dumbo_ucy.Rbc.Merkle.Branch.{merkle_verify-get_merkle_branch}
use dumbo_ucy.Rbc.Merkle.Binding.{Collision, merkle_binding}
use dumbo_ucy.Rbc.Coding.{encode, decode}
use dumbo_ucy.Rbc.Coding.RoundTrip.{IsPartOf-self, present_all, decode-encode}
use dumbo_ucy.Rbc.Coding.WidePadding.{decode-encode_wide}
use dumbo_ucy.Rbc.Handler.{
  Params, Msg, val, echo, ready, State, init, handle, decode_output, on_val, on_echo, on_ready,
  record_echo, record_ready, check_echo, has_stripe, send_ready, output, finish, broadcast,
  send_all,
}
use dumbo_ucy.Rbc.Bookkeeping.{IsValid, record_ready-IsValid}
use dumbo_ucy.Rbc.Invariant.{Delivered, run-IsValid}
use dumbo_ucy.Rbc.Agreement.{delivered_same}
use dumbo_ucy.Rbc.Sends.{SendsOnce, run-SendsOnce}
use dumbo_ucy.Rbc.Samples.{
  toy_hash, copy_encode, copy_decode, copy-Recovers, toy_stripe, toy_stripes, toy, payload, root,
  branch, toy_tree,
}

-- Named on an `unfolding` line, this opens all that a run computes with.
opened : Unit {0}
unfolding run handle on_val on_echo check_echo on_ready record_echo record_ready send_ready output
    finish broadcast send_all merkle_verify merkle_tree decode_output decode encode get_or_default
    put has_key contains add has_stripe
opened = tt

tree_built : merkle_tree toy_hash toy_stripes ≡ some toy_tree
unfolding merkle_tree
tree_built = refl

merkle_verify-get_merkle_branch_example :
    merkle_verify toy_hash 4 toy_stripe root (get_merkle_branch 2 toy_tree) 2 ≡ some true
merkle_verify-get_merkle_branch_example =
    merkle_verify-get_merkle_branch toy_hash toy_stripes toy_tree 2 tree_built (omega arith)

stripe_accepted : merkle_verify toy_hash 4 toy_stripe root branch 1 ≡ some true
unfolding merkle_verify
stripe_accepted = refl

merkle_binding_example : (toy_stripe ≡ toy_stripe) ⊎ Collision toy_hash
merkle_binding_example =
    merkle_binding toy_hash 1 (λ x. refl) 4 1 root toy_stripe toy_stripe branch branch
      stripe_accepted stripe_accepted

payload_encoded : encode copy_encode 2 4 payload ≡ some toy_stripes
unfolding encode
payload_encoded = refl

decode-encode_example :
    decode copy_decode 2 4 (none ∷ some toy_stripe ∷ none ∷ some toy_stripe ∷ []) ≡ some payload
decode-encode_example =
    decode-encode copy_encode copy_decode 2 4 payload toy_stripes
      (none ∷ some toy_stripe ∷ none ∷ some toy_stripe ∷ []) (copy-Recovers 2 4 (omega arith))
      (omega arith) (omega arith) payload_encoded refl (refl, (refl, tt)) (omega arith)

-- 128 bytes for K = 129: one two-byte character of padding.
abbrev wide_payload : Bytes
wide_payload = replicate 128 5

abbrev wide_stripe : Bytes
wide_stripe = replicate 128 5 ++ 194 ∷ []

wide_encoded : encode copy_encode 129 130 wide_payload ≡ some (replicate 130 wide_stripe)
unfolding encode
wide_encoded = refl

decode-encode_wide_example :
    decode copy_decode 129 130 (map some (replicate 130 wide_stripe)) ≢ some wide_payload
decode-encode_wide_example =
    decode-encode_wide copy_encode copy_decode 129 130 wide_payload (replicate 130 wide_stripe)
      (map some (replicate 130 wide_stripe)) (copy-Recovers 129 130 (omega arith)) wide_encoded refl
      (IsPartOf-self (replicate 130 wide_stripe))
      (omega (arith, present_all (replicate 130 wide_stripe))) (omega arith) (omega arith)
      (omega arith) refl

abbrev messages : List (ℕ × Msg)
messages =
    (0, val root branch toy_stripe)
    ∷ (1, echo root branch toy_stripe)
    ∷ (2, ready root)
    ∷ (3, echo root branch toy_stripe)
    ∷ (2, ready root)
    ∷ (1, ready root)
    ∷ []

abbrev before_return : State
before_return = record {
  from_leader = some root;
  stripes = (root, none ∷ some toy_stripe ∷ none ∷ some toy_stripe ∷ []) ∷ [];
  echo_counter = (root, 2) ∷ [];
  echo_senders = 1 ∷ 3 ∷ [];
  readies = (root, 2 ∷ 1 ∷ []) ∷ [];
  ready_sent = true;
  ready_senders = 2 ∷ 1 ∷ [];
}

-- Redundant READY messages are dropped; the second READY sender triggers the party's own.
run_waits : (run (handle toy) init messages).1 ≡ waiting before_return
unfolding opened
run_waits = refl

run_returns : (run (handle toy) init (messages ++ (0, ready root) ∷ [])).1 ≡ returned payload
unfolding opened
run_returns = refl

run-IsValid_example : IsValid toy before_return
unfolding opened
run-IsValid_example = run-IsValid toy messages

run-SendsOnce_example : SendsOnce toy before_return (run (handle toy) init messages).0
unfolding opened
run-SendsOnce_example = run-SendsOnce toy messages

delivered : Delivered toy payload
unfolding opened
delivered = record {
  state = record_ready toy before_return 0 root;
  root = root;
  valid = record_ready-IsValid toy before_return 0 root (run-IsValid toy messages);
  quorum = omega arith;
  enough = omega arith;
  decoded = refl;
}

abbrev at_one : Params
at_one = record toy { pid = 1 }

delivered_at_one : Delivered at_one payload
unfolding opened
delivered_at_one = record {
  state = record_ready at_one before_return 0 root;
  root = root;
  valid = record_ready-IsValid at_one before_return 0 root (run-IsValid at_one messages);
  quorum = omega arith;
  enough = omega arith;
  decoded = refl;
}

delivered_same_example : (payload ≡ payload) ⊎ Collision toy_hash
unfolding delivered delivered_at_one
delivered_same_example =
    delivered_same toy 1 (λ x. refl) (copy-Recovers 2 4 (omega arith)) (λ blocks. refl)
      (omega arith) (omega arith) 1 delivered delivered_at_one refl
