-- ===== src/Stores/Shares/Refinement.antt =====
-- The share store as a map from a channel and a version to a share.
use reference_app.Inbound.{held}
use reference_app.Prelude.{
  Bool, List, Option, Option-cases, String, [], ap, arith, eq_iff, filter, if◌then◌else◌, includes,
  includes-filter, includes-set_add, includes-set_delete, includes-set_of, inl, inr, length, lookup,
  lookup-insert, ltb, nat_eq, none, not, option_eq, pair_eq, refl, set_of, some, string_eq, true, ℕ,
  ◌&&◌, ◌==◌, ◌∙◌, ◌∷◌, ◌≡◌,
}
use reference_app.Stores.{Browser, LocalStorage, Outcome, Partition, and_then, done}
use reference_app.Stores.Shares.{
  Share, channels_with_shares, read_share, remove_channel, remove_shares, remove_versions, save,
  versions_for,
}
use reference_app.Stores.Shares.Removal.{remove_channel-done, write_kept-done}
use reference_app.Stores.Shares.Rows.{remove_shares-indexes, remove_shares-rows, save-done}
use reference_app.Stores.Writes.{and_then-done}

pub data ShareOp : Type 0 where
  save_share : ℕ → Share → ShareOp
  remove_all : ℕ → ShareOp
  remove_some : ℕ → List ℕ → ShareOp

unfoldable pub share_call : Browser → LocalStorage → Partition → ShareOp → Outcome Unit
unfolding save remove_channel remove_versions
share_call b s p (save_share c share) = save b s p c share
share_call b s p (remove_all c) = remove_channel b s p c
share_call b s p (remove_some c vs) = remove_versions b s p c vs

unfoldable pub share_calls : Browser → LocalStorage → Partition → List ShareOp → Outcome Unit
unfolding share_call
share_calls b s p [] = done s tt
share_calls b s p (op ∷ ops) = and_then (share_call b s p op) (λ s1 _. share_calls b s1 p ops)

-- what the calls do to the map
abbrev pub Held : Type 0
Held = ℕ → ℕ → Option Share

abbrev pub spec_step : ShareOp → Held → Held
spec_step (save_share c share) held c' v' =
    if c == c' && share.version == v'
    then (if share.bytes == "" then none else some share)
    else held c' v'
spec_step (remove_all c) held c' v' = if c == c' then none else held c' v'
spec_step (remove_some c vs) held c' v' = if c == c' && includes vs v' then none else held c' v'

abbrev pub spec : List ShareOp → Held → Held
spec [] held = held
spec (op ∷ ops) held = spec ops (spec_step op held)

-- Every row of a share is listed under its channel, and every channel that lists one is listed.
pub record IsIndexed (s : LocalStorage) (p : Partition) : Type 0 where
  pub listed_versions :
      (c v : ℕ) (bytes : String)
      → lookup s.share_data ((p, c), v) ≡ some bytes
      → includes (versions_for s p c) v ≡ true
  pub listed_channels :
      (c v : ℕ)
      → includes (versions_for s p c) v ≡ true
      → includes (channels_with_shares s p) c ≡ true

pub save-refines :
    (b : Browser) (s : LocalStorage) (p : Partition) (c : ℕ) (share : Share) (s' : LocalStorage)
    → IsIndexed s p
    → save b s p c share ≡ done s' tt
    → IsIndexed s' p
      × ((c' v' : ℕ)
          → read_share s' p c' v' ≡ spec_step (save_share c share) (read_share s p) c' v')
unfolding read_share
save-refines b s p c share s' ok h =
    let (d, m, v, k) = save-done b s p c share s' h in
    (
      record {
        listed_versions = λ c' v' bytes g. ground (
          arith,
          d,
          v c',
          g,
          ok.listed_versions c' v' bytes,
          lookup-insert s.share_data ((p, c), share.version) share.bytes ((p, c'), v'),
          includes-set_add v' (versions_for s p c) share.version,
          eq_iff p.0 p.0,
          eq_iff p.1 p.1,
        );
        listed_channels = λ c' v' g. ground (
          arith,
          v c',
          k,
          g,
          ok.listed_channels c' v',
          includes-set_add c' (channels_with_shares s p) c,
        );
      },
      λ c' v'. ground (
        arith,
        d,
        m,
        lookup-insert s.share_data ((p, c), share.version) share.bytes ((p, c'), v'),
        lookup-insert s.share_meta ((p, c), share.version) share.secret_id ((p, c'), v'),
        eq_iff p.0 p.0,
        eq_iff p.1 p.1,
      ),
    )

remove_channel-refines :
    (b : Browser) (s : LocalStorage) (p : Partition) (c : ℕ) (s' : LocalStorage)
    → IsIndexed s p
    → remove_channel b s p c ≡ done s' tt
    → IsIndexed s' p
      × ((c' v' : ℕ) → read_share s' p c' v' ≡ spec_step (remove_all c) (read_share s p) c' v')
unfolding read_share
remove_channel-refines b s p c s' ok h =
    let (d, m, v, k) = remove_channel-done b s p c s' h in
    (
      record {
        listed_versions = λ c' v' bytes g. ground (
          arith,
          d,
          v c',
          g,
          ok.listed_versions c' v' bytes,
          remove_shares-rows s p c (versions_for s p c) c' v',
        );
        listed_channels = λ c' v' g. ground (
          arith,
          v c',
          k,
          g,
          ok.listed_channels c' v',
          includes-set_delete c' (channels_with_shares s p) c,
        );
      },
      λ c' v'. elim (Option-cases (lookup s.share_data ((p, c'), v'))) [
        | inl gone ↦ ground (arith, d, m, gone, remove_shares-rows s p c (versions_for s p c) c' v')
        | inr (bytes, there) ↦ ground (
          arith,
          d,
          m,
          there,
          ok.listed_versions c' v' bytes there,
          remove_shares-rows s p c (versions_for s p c) c' v',
        )
      ],
    )

some_left_of : (xs : List ℕ) (x : ℕ) → includes xs x ≡ true → ltb 0 (length xs) ≡ true
some_left_of [] x h = cc
some_left_of (y ∷ xs) x h = ground arith

remove_versions-refines :
    (b : Browser) (s : LocalStorage) (p : Partition) (c : ℕ) (vs : List ℕ) (s' : LocalStorage)
    → IsIndexed s p
    → remove_versions b s p c vs ≡ done s' tt
    → IsIndexed s' p
      × ((c' v' : ℕ) → read_share s' p c' v' ≡ spec_step (remove_some c vs) (read_share s p) c' v')
unfolding read_share versions_for channels_with_shares remove_versions
remove_versions-refines b s p c [] s' ok h =
    let e : s' ≡ s = ground (arith, h) in rw e (ok, λ c' v'. ground arith)
remove_versions-refines b s p c (w ∷ ws) s' ok h =
    let doomed = set_of [] (w ∷ ws) in
    let rest = remove_shares s p c doomed in
    let stored = versions_for rest p c in
    let keep : ℕ → Bool = λ x. not (includes doomed x) in
    let kept = filter keep stored in
    let (vs0, cs0) = remove_shares-indexes p c doomed s in
    let (d, m, v, k) = write_kept-done b rest p c kept s' h in
    (
      record {
        listed_versions = λ c' v' bytes g. ground (
          arith,
          d,
          v c',
          g,
          vs0,
          ok.listed_versions c' v' bytes,
          remove_shares-rows s p c doomed c' v',
          includes-filter v' keep stored,
        );
        listed_channels = λ c' v' g. ground (
          arith,
          v c',
          k,
          g,
          vs0,
          cs0,
          ok.listed_channels c' v',
          includes-set_delete c' (channels_with_shares rest p) c,
          some_left_of kept v',
          includes-filter v' keep stored,
        );
      },
      λ c' v'.
          ground
            (arith, d, m, remove_shares-rows s p c doomed c' v', includes-set_of v' [] (w ∷ ws)),
    )

share_call-refine :
    (op : ShareOp) (b : Browser) (s : LocalStorage) (p : Partition) (s' : LocalStorage)
    → IsIndexed s p
    → share_call b s p op ≡ done s' tt
    → IsIndexed s' p × ((c v : ℕ) → read_share s' p c v ≡ spec_step op (read_share s p) c v)
unfolding share_call
share_call-refine (save_share c share) b s p s' ok h = save-refines b s p c share s' ok h
share_call-refine (remove_all c) b s p s' ok h = remove_channel-refines b s p c s' ok h
share_call-refine (remove_some c vs) b s p s' ok h = remove_versions-refines b s p c vs s' ok h

-- Where the rows and the indexes of a partition agree, and the browser has room for each write of a
-- run of `save`, `removeChannel` and `removeVersions`, the store answers for each channel and version
-- as the map does that the same calls were made on, with a share without bytes being none; and the
-- rows and the indexes agree again.
pub share_calls-refine :
    (ops : List ShareOp) (b : Browser) (s : LocalStorage) (p : Partition) (s' : LocalStorage)
    → IsIndexed s p
    → share_calls b s p ops ≡ done s' tt
    → IsIndexed s' p × ((c v : ℕ) → read_share s' p c v ≡ spec ops (read_share s p) c v)
unfolding share_calls share_call
share_calls-refine [] b s p s' ok h = let e : s' ≡ s = ground (arith, h) in rw e (ok, λ c v. refl)
share_calls-refine (op ∷ ops) b s p s' ok h =
    let (s1, _, h1, rest) =
      and_then-done (share_call b s p op) (λ x _. share_calls b x p ops) s' tt h in
    let (ok1, reads) = share_call-refine op b s p s1 ok h1 in
    let (ok2, held) = share_calls-refine ops b s1 p s' ok1 rest in
    let same : read_share s1 p ≡ spec_step op (read_share s p) = λ i c v. reads c v i in
    (ok2, λ c v. held c v ∙ ap (λ x. spec ops x c v) same)
