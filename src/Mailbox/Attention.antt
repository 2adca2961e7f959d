-- ===== src/Mailbox/Attention.antt =====
-- What a request that blocks the drain does to it.
use reference_app.Mailbox.{
  AttentionItem, Runtime, World, drain_once, drain_paused, pause_drain, resolve_attention,
  resume_drain,
}
use reference_app.Mailbox.Delivery.{
  DrainStep, drain_step, drain_step_on, handled_by, pause_step, polled_by, resolve_step,
  resume_step,
}
use reference_app.Prelude.{
  Bool, List, Option, String, [], any, arith, eq_iff, false, filter, nat_eq, none, not, option_eq,
  pair_eq, refl, some, string_eq, true, ◌&&◌, ◌==◌, ◌||◌, ◌∷◌, ◌≡◌,
}

-- the queue has a blocking request with this id
abbrev pub blocks_as : String → AttentionItem → Bool
blocks_as id item = item.id == id && item.blocks_drain

module _ {Message : Type 0} where
  -- the step resolves the request
  abbrev pub resolves : String → DrainStep Message → Bool
  resolves id (resolve_step other) = other == id
  resolves id _ = false

any-blocking :
    (id : String) (items : List AttentionItem)
    → any (blocks_as id) items ≡ true
    → any (λ item. item.blocks_drain) items ≡ true
any-blocking id [] h = cc
any-blocking id (item ∷ items) h = ground (arith, h, any-blocking id items)

blocking-resolve :
    (id other : String) (items : List AttentionItem)
    → (other == id) ≡ false
    → any (blocks_as id) (filter (λ item. not (item.id == other)) items) ≡ any (blocks_as id) items
blocking-resolve id other [] h = refl
blocking-resolve id other (item ∷ items) h = ground (
  arith,
  h,
  blocking-resolve id other items,
  eq_iff item.id other,
  eq_iff item.id id,
  eq_iff other id,
)

module _ {V Message Event : Type 0} (world : World V Message Event) where
  blocked_handled :
      (polled : Option (List Message)) (steps : List (DrainStep Message)) (r : Runtime V Message)
      → drain_once world r polled ≡ (r, false, [])
      → handled_by world r steps ≡ []
      → handled_by world r (drain_step polled ∷ steps) ≡ []
  unfolding handled_by drain_step_on
  blocked_handled polled steps r same later = rw (handled_by, same) later

  blocked_polled :
      (polled : Option (List Message)) (steps : List (DrainStep Message)) (r : Runtime V Message)
      → drain_once world r polled ≡ (r, false, [])
      → polled_by world r steps ≡ []
      → polled_by world r (drain_step polled ∷ steps) ≡ []
  unfolding polled_by drain_step_on
  blocked_polled none steps r same later = rw (polled_by, same) later
  blocked_polled (some messages) steps r same later = rw (polled_by, same) later

  -- While a request that blocks the drain is on the queue, no message is taken from the node and none
  -- is handed to the protocol, whatever steps are made that do not resolve it.
  pub drain_steps-blocked :
      (steps : List (DrainStep Message)) (r : Runtime V Message) (id : String)
      → any (blocks_as id) r.items ≡ true
      → any (resolves id) steps ≡ false
      → (handled_by world r steps ≡ []) × (polled_by world r steps ≡ [])
  unfolding handled_by polled_by drain_step_on drain_once resolve_attention pause_drain resume_drain
      drain_paused
  drain_steps-blocked [] r id h free = (refl, refl)
  drain_steps-blocked (drain_step polled ∷ steps) r id h free =
      let shut : (r.blocked || drain_paused r || not r.has_protocol) ≡ true =
        ground (arith, any-blocking id r.items h) in
      let same : drain_once world r polled ≡ (r, false, []) = rw (drain_once, shut) refl in
      let later = drain_steps-blocked steps r id h (ground (arith, free)) in
      (blocked_handled polled steps r same later.0, blocked_polled polled steps r same later.1)
  drain_steps-blocked (resolve_step other ∷ steps) r id h free =
      drain_steps-blocked steps (resolve_attention r other) id
        (ground (arith, h, free, blocking-resolve id other r.items)) (ground (arith, free))
  drain_steps-blocked (pause_step reason ∷ steps) r id h free =
      drain_steps-blocked steps (pause_drain r reason) id h free
  drain_steps-blocked (resume_step reason ∷ steps) r id h free =
      drain_steps-blocked steps (resume_drain r reason) id h free
