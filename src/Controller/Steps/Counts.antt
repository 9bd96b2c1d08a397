-- ===== src/Controller/Steps/Counts.antt =====
-- How often a command stands in the channel, among the accepted ones and among the completed ones
-- of crates/openwave-runtime/src/controller/state.rs.
use openwave.Prelude.{
  ℕ, suc, ◌+◌, ◌≤◌, ◌≡◌, refl, true, false, ◌||◌, List, [], ◌∷◌, ◌++◌, ◌==◌, if◌then◌else◌, arith,
  Eq, nat_eq_iff, nat_instance,
}
use openwave.Prelude.Dict.{Dict, keys, insert, remove, modify, contains, discard}
use openwave.Controller.Requests.{AppCommand, CommandOutcome, cancelled_command}
use openwave.Controller.Exit.{cancel_queued}

abbrev pub count : ℕ → List ℕ → ℕ
count id [] = 0
count id (j ∷ l) = if j == id then suc (count id l) else count id l

pub count-append : (id : ℕ) (k l : List ℕ) → count id (k ++ l) ≡ count id k + count id l
count-append id [] l = omega arith
count-append id (j ∷ k) l = ground (arith, count-append id k l)

pub count-discard :
    (j id : ℕ) (l : List ℕ) → count j (discard id l) ≡ (if id == j then 0 else count j l)
unfolding discard
count-discard j id [] = ground arith
count-discard j id (i ∷ l) =
    ground (arith, count-discard j id l, nat_eq_iff i id, nat_eq_iff i j, nat_eq_iff id j)

pub count-contains : (id : ℕ) (l : List ℕ) → contains id l ≡ true → 1 ≤ count id l
unfolding contains
count-contains id [] h = ground arith
count-contains id (j ∷ l) h = ground (arith, count-contains id l)

pub count-lacks : (id : ℕ) (l : List ℕ) → contains id l ≡ false → count id l ≡ 0
unfolding contains
count-lacks id [] h = refl
count-lacks id (j ∷ l) h = ground (arith, count-lacks id l)

module _ {K V : Type 0} ⦃e : Eq K⦄ where
  pub keys-append : (m n : Dict K V) → keys (m ++ n) ≡ keys m ++ keys n
  keys-append [] n = refl
  keys-append ((k, v) ∷ m) n = ground (arith, keys-append m n)

  pub keys-modify : (k : K) (f : V → V) (m : Dict K V) → keys (modify k f m) ≡ keys m
  unfolding modify
  keys-modify k f [] = refl
  keys-modify k f ((j, w) ∷ m) = ground (arith, keys-modify k f m)

  pub contains-insert :
      (j k : K) (v : V) (m : Dict K V)
      → contains j (keys (insert k v m)) ≡ (k == j || contains j (keys m))
  unfolding insert contains
  contains-insert j k v [] = refl
  contains-insert j k v ((i, w) ∷ m) =
      ground (arith, contains-insert j k v m, e.beq_iff i k, e.beq_iff i j, e.beq_iff k j)

  pub contains-remove :
      (j k : K) (m : Dict K V)
      → contains j (keys (remove k m)) ≡ (if k == j then false else contains j (keys m))
  unfolding remove contains
  contains-remove j k [] = ground arith
  contains-remove j k ((i, w) ∷ m) =
      ground (arith, contains-remove j k m, e.beq_iff i k, e.beq_iff i j, e.beq_iff k j)

pub count-cancel_queued :
    {F P : Type 0} (id : ℕ) (queue : List (ℕ × AppCommand F P)) (ended : List (ℕ × CommandOutcome))
    → count id (keys (cancel_queued queue ended)) ≡ count id (keys queue) + count id (keys ended)
count-cancel_queued id [] ended = omega arith
count-cancel_queued id ((j, command) ∷ queue) ended =
    ground (arith, count-cancel_queued id queue ((j, cancelled_command) ∷ ended))
