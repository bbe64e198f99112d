-- ===== src/Crypto/Boldyreva/Tests.antt =====
-- Keys and signatures over the field of three elements, whose addition serves as the groups.
use dumbo_ucy.Shared.{◌≡◌, true, some, [], ◌∷◌, nat_comparable, arith}
use dumbo_ucy.Crypto.Boldyreva.{polynom_eval, combine_shares, verify_signature}
use dumbo_ucy.Crypto.Boldyreva.Horner.{horner, polynom_eval-horner}
use dumbo_ucy.Crypto.Boldyreva.Combined.{first_shares, combine_verifies}
use dumbo_ucy.Crypto.Boldyreva.Samples.{
  Three, n0, n1, n2, three_comparable, toy, toy-IsRing, toy-IsPairing, key, dealt,
}

polynom_eval-horner_example :
    polynom_eval toy n2 (n1 ∷ n2 ∷ n2 ∷ []) ≡ horner toy n2 (n1 ∷ n2 ∷ n2 ∷ [])
polynom_eval-horner_example = polynom_eval-horner toy toy-IsRing n2 (n1 ∷ n2 ∷ n2 ∷ [])

combine_verifies_example :
    (sig : Three) × ((combine_shares toy key (first_shares toy n2 2 (n0 ∷ n1 ∷ [])) ≡ some sig)
      × (verify_signature toy key sig n2 ≡ true))
combine_verifies_example =
    combine_verifies toy toy-IsPairing 2 (n2 ∷ n1 ∷ []) key (n0 ∷ n1 ∷ []) n2 dealt (omega arith)
