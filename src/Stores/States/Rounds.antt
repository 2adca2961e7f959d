-- ===== src/Stores/States/Rounds.antt =====
-- The rounds that are open, as the state rows of kind 3 have them.
use reference_app.Prelude.{
  All, All-filter, Bool, Bool-cases, List, String, [], any-append, ap, arith, delete, eq_iff,
  filter, has, includes, includes-set_delete, inl, inr, insert, lookup-delete, lookup-insert, map,
  nat_eq, none, not, option_eq, pair_eq, refl, set_delete, some, string_eq, ℕ, ◌&&◌, ◌++◌, ◌==◌,
  ◌||◌, ◌∙◌, ◌∷◌, ◌≡◌,
}
use reference_app.Stores.{
  Browser, Composite, LocalStorage, Partition, StateItem, StateKeyFields, add_to_index, done,
}
use reference_app.Stores.States.{
  canonical_state_key, composite_version, is_round_version, open_sharing_round_versions,
  remove_state, save_state, state_index_of, with_state_index, with_state_row,
}
use reference_app.Stores.Writes.{add_to_index-done, and_then-done, store_item-done}

abbrev pub round_key : ℕ → Composite
round_key version = ((3, ""), some version)

abbrev pub round_fields : ℕ → StateKeyFields
round_fields version = record {
  kind = 3;
  channel_id = none;
  secret_id = none;
  version = some version;
}

abbrev IsRound : Composite → Type 0
IsRound composite = composite.0 ≡ (3, "")

-- every composite that the index of kind 3 lists is one that `canonicalStateKey` makes for it
pub record IsRoundIndex (s : LocalStorage) (p : Partition) : Type 0 where
  pub all_rounds : All IsRound (state_index_of s p 3)

abbrev rounds_in : LocalStorage → Partition → List Composite → List ℕ
rounds_in s p index =
    filter is_round_version
      (map composite_version (filter (λ composite. has s.state_rows (p, composite)) index))

includes-rounds_in :
    (s : LocalStorage) (p : Partition) (index : List Composite) (x : ℕ)
    → All IsRound index
    → includes (rounds_in s p index) x
      ≡ (is_round_version x && (has s.state_rows (p, round_key x) && includes index (round_key x)))
includes-rounds_in s p [] x h = ground arith
includes-rounds_in s p ((kind, none) ∷ index) x h =
    ground (arith, h.0, includes-rounds_in s p index x h.1)
includes-rounds_in s p ((kind, some v) ∷ index) x h = elim (Bool-cases (v == x)) [
  | inl same ↦
      let e : v ≡ x = ground (arith, same) in
      rw (h.0, e) (ground (arith, includes-rounds_in s p index x h.1, eq_iff "" ""))
  | inr other ↦ ground (arith, other, includes-rounds_in s p index x h.1)
]

pub includes-open_sharing_round_versions :
    (s : LocalStorage) (p : Partition) (x : ℕ)
    → IsRoundIndex s p
    → includes (open_sharing_round_versions s p) x ≡ (
        is_round_version x
        && (has s.state_rows (p, round_key x) && includes (state_index_of s p 3) (round_key x)))
unfolding open_sharing_round_versions
includes-open_sharing_round_versions s p x ok =
    includes-rounds_in s p (state_index_of s p 3) x ok.all_rounds

All-concat :
    (xs : List Composite) (x : Composite) → All IsRound xs → IsRound x → All IsRound (xs ++ x ∷ [])
All-concat [] x h g = (g, tt)
All-concat (y ∷ xs) x h g = (h.0, All-concat xs x h.1 g)

state_indexed :
    (b : Browser) (s : LocalStorage) (p : Partition) (v : ℕ) (s' : LocalStorage)
    → IsRoundIndex s p
    → add_to_index b s (state_index_of s p 3) (round_key v) (with_state_index s p 3) ≡ done s' tt
    → (s'.state_rows ≡ s.state_rows)
      × IsRoundIndex s' p
      × ((x : ℕ)
          → includes (state_index_of s' p 3) (round_key x)
            ≡ (includes (state_index_of s p 3) (round_key x) || v == x))
unfolding state_index_of
state_indexed b s p v s' ok h =
    let old = state_index_of s p 3 in
    let e = add_to_index-done b s old (round_key v) (with_state_index s p 3) s' h in
    elim (Bool-cases (includes old (round_key v))) [
      | inl there ↦
          let same : s' ≡ s = ground (arith, e, there) in
          rw same (
            refl,
            ok,
            λ x. elim (Bool-cases (v == x)) [
              | inl at ↦ let v_x : v ≡ x = ground (arith, at) in rw (← v_x) (ground (arith, there))
              | inr other ↦ ground (arith, other)
            ],
          )
      | inr gone ↦
          let new = old ++ round_key v ∷ [] in
          let same : s' ≡ with_state_index s p 3 new = ground (arith, e, gone) in
          let index : state_index_of (with_state_index s p 3 new) p 3 ≡ new = ground (
            arith,
            lookup-insert s.state_index (p, 3) new (p, 3),
            eq_iff p.0 p.0,
            eq_iff p.1 p.1,
          ) in
          rw same (
            refl,
            record { all_rounds = rw index (All-concat old (round_key v) ok.all_rounds refl) },
            λ x.
                ap (λ xs. includes xs (round_key x)) index
                ∙ any-append (λ z. z == round_key x) old (round_key v ∷ [])
                ∙ ground (arith, eq_iff "" ""),
          )
    ]

-- Where the index of the rounds lists only rounds, a successful `save` of the state of a round makes
-- its version one of the open rounds, where it is from 1 to 2 ^ 53 - 1, and no other.
pub save_state-rounds :
    (b : Browser) (s : LocalStorage) (p : Partition) (v : ℕ) (body : String) (s' : LocalStorage)
    → IsRoundIndex s p
    → save_state b s p (record { fields = round_fields v; body = body }) ≡ done s' tt
    → IsRoundIndex s' p
      × ((x : ℕ)
          → includes (open_sharing_round_versions s' p) x
            ≡ (includes (open_sharing_round_versions s p) x || (is_round_version v && v == x)))
unfolding save_state canonical_state_key state_index_of
save_state-rounds b s p v body s' ok h =
    let item : StateItem = record { fields = round_fields v; body = body } in
    let (s1, _, w1, h1) = and_then-done _ _ s' tt h in
    let e1 = store_item-done b s (with_state_row s p item) s1 w1 in
    let index1 : state_index_of s1 p 3 ≡ state_index_of s p 3 = rw e1 refl in
    let rows1 : s1.state_rows ≡ insert s.state_rows (p, round_key v) item = rw e1 refl in
    let ok1 : IsRoundIndex s1 p = record { all_rounds = rw index1 ok.all_rounds } in
    let (rows, ok2, listed_now) = state_indexed b s1 p v s' ok1 h1 in
    (
      ok2,
      λ x. ground (
        arith,
        includes-open_sharing_round_versions s p x ok,
        includes-open_sharing_round_versions s' p x ok2,
        rows,
        rows1,
        index1,
        listed_now x,
        lookup-insert s.state_rows (p, round_key v) item (p, round_key x),
        eq_iff p.0 p.0,
        eq_iff p.1 p.1,
        eq_iff "" "",
      ),
    )

-- Where the index of the rounds lists only rounds, a successful `remove` of the state of a round
-- makes its version no open round, leaves every other one, and says whether its row was there.
pub remove_state-rounds :
    (b : Browser) (s : LocalStorage) (p : Partition) (v : ℕ) (s' : LocalStorage) (existed : Bool)
    → IsRoundIndex s p
    → remove_state b s p (round_fields v) ≡ done s' existed
    → IsRoundIndex s' p
      × (existed ≡ has s.state_rows (p, round_key v))
      × ((x : ℕ)
          → includes (open_sharing_round_versions s' p) x
            ≡ (includes (open_sharing_round_versions s p) x && not (v == x)))
unfolding remove_state canonical_state_key state_index_of
remove_state-rounds b s p v s' existed ok h =
    let s0 = record s { state_rows = delete s.state_rows (p, round_key v) } in
    let left = set_delete (state_index_of s p 3) (round_key v) in
    let (s1, _, w1, h1) = and_then-done _ _ s' existed h in
    let e1 = store_item-done b s0 (with_state_index s0 p 3 left) s1 w1 in
    let e : s' ≡ with_state_index s0 p 3 left = ground (arith, h1, e1) in
    let index : state_index_of (with_state_index s0 p 3 left) p 3 ≡ left =
      ground
        (arith, lookup-insert s.state_index (p, 3) left (p, 3), eq_iff p.0 p.0, eq_iff p.1 p.1) in
    let ok' : IsRoundIndex (with_state_index s0 p 3 left) p = record {
      all_rounds =
          rw index
            (All-filter IsRound (λ z. not (z == round_key v)) (state_index_of s p 3) ok.all_rounds);
    } in
    rw e (
      ok',
      ground (arith, h1),
      λ x. ground (
        arith,
        includes-open_sharing_round_versions s p x ok,
        includes-open_sharing_round_versions (with_state_index s0 p 3 left) p x ok',
        index,
        includes-set_delete (round_key x) (state_index_of s p 3) (round_key v),
        lookup-delete s.state_rows (p, round_key v) (p, round_key x),
        eq_iff p.0 p.0,
        eq_iff p.1 p.1,
        eq_iff "" "",
      ),
    )
