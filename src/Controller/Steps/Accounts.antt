-- ===== src/Controller/Steps/Accounts.antt =====
-- The numbers of the commands of crates/openwave-runtime/src/controller/state.rs, by the place where
-- each command is.
use openwave.Prelude.{
  ℕ, ◌+◌, ◌≤◌, ◌≡◌, subst, true, false, ◌||◌, List, [], ◌∷◌, ◌++◌, ◌==◌, if◌then◌else◌, arith,
  nat_eq_iff, nat_instance,
}
use openwave.Prelude.Dict.{keys, contains, discard, contains-discard}
use openwave.Controller.Keys.{key_instance}
use openwave.Controller.Requests.{Submitted, admitted, refused, Requests}
use openwave.Controller.Steps.Counts.{count, count-append, count-discard, count-contains}

-- `issued` are the numbers of the admitted commands; the other lists are where they are now.
pub record IsAccounted (issued : List ℕ) (next : ℕ)
    (queued accepted open_requests completed : List ℕ) : Type 0 where
  pub placed :
      (id : ℕ) → count id queued + (count id accepted + count id completed) ≡ count id issued
  pub once : (id : ℕ) → count id issued ≤ 1
  pub fresh : (id : ℕ) → next ≤ id → count id issued ≡ 0
  pub tracked : (id : ℕ) → contains id accepted ≡ true → contains id open_requests ≡ true

module _ {F P : Type 0} where
  abbrev pub IsOrderly : List ℕ → Requests F P → Type 0
  IsOrderly issued s =
      IsAccounted issued s.next_command (keys s.queue) s.accepted (keys s.requests)
        (keys s.completed)

abbrev pub issue_number : Submitted → List ℕ → List ℕ
issue_number (admitted id) issued = id ∷ issued
issue_number (refused e) issued = issued

module _ {issued : List ℕ} {n : ℕ} {q a r c : List ℕ} (h : IsAccounted issued n q a r c) where
  pub spent : IsAccounted issued (n + 1) q a r c
  spent = record {
    placed = h.placed;
    once = h.once;
    fresh = λ id e. h.fresh id (omega (arith, e));
    tracked = h.tracked;
  }

  pub drawn : IsAccounted (n ∷ issued) (n + 1) (q ++ n ∷ []) a r c
  drawn = record {
    placed = λ id. ground (arith, count-append id q (n ∷ []), h.placed id);
    once = λ id. ground (arith, h.once id, h.fresh n, nat_eq_iff n id);
    fresh = λ id e. ground (arith, h.fresh id, nat_eq_iff n id, e);
    tracked = h.tracked;
  }

  pub completes :
      (id : ℕ) (r' : List ℕ)
      → ((j : ℕ) → contains j r' ≡ (if id == j then false else contains j r))
      → contains id a ≡ true
      → IsAccounted issued n q (discard id a) r' (id ∷ c)
  completes id r' k e = record {
    placed = λ j.
        ground (
          arith,
          count-discard j id a,
          h.placed j,
          h.once j,
          count-contains id a e,
          nat_eq_iff id j,
        );
    once = h.once;
    fresh = h.fresh;
    tracked = λ j. ground (arith, contains-discard j id a, k j, h.tracked j, nat_eq_iff id j);
  }

pub requeued :
    {issued : List ℕ} {n : ℕ} {q q' a r c : List ℕ}
    → q ≡ q'
    → IsAccounted issued n q a r c
    → IsAccounted issued n q' a r c
requeued {issued} {n} {a} {r} {c} e h = subst (λ q. IsAccounted issued n q a r c) e h

pub takes :
    {issued : List ℕ} {n : ℕ} {q a r c : List ℕ} (id : ℕ) (r' : List ℕ)
    → ((j : ℕ) → contains j r' ≡ (id == j || contains j r))
    → IsAccounted issued n (id ∷ q) a r c
    → IsAccounted issued n q (if contains id a then a else id ∷ a) r' c
unfolding contains
takes {a} id r' k h = record {
  placed =
      λ j. ground (arith, h.placed j, h.placed id, h.once id, count-contains id a, nat_eq_iff id j);
  once = h.once;
  fresh = h.fresh;
  tracked = λ j. ground (arith, k j, h.tracked j, nat_eq_iff id j);
}
