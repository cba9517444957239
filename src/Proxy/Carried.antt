-- ===== src/Proxy/Carried.antt =====
-- What the handler stamps is what the hook of src/usage/mod.rs reads.
use smart_gate.Session.Store.{Sessions, record_success, session_key}
use smart_gate.Usage.Report.{Report}
use smart_gate.Usage.Finish.{i32_or, record_session, affinity_of, is_key}
use smart_gate.Base.{
  ap, ◌∙◌, Bool, Option, Text, Text-discrete, codes, map_option, none, refl, some, true, ℕ, ◌<◌,
  ◌^◌, ◌∙◌, ◌≡◌,
}
use smart_gate.Base.Int.{negsuc, pos, ℤ}
use smart_gate.Base.Map.{Map, put}
use smart_gate.Auth.Models.{VirtualModel}
use smart_gate.Context.Text.{to_decimal}
use smart_gate.Session.Ids.{and_then, or_option}
use smart_gate.Session.Hash.{format_prefix_hash, from_str_radix16}
use smart_gate.Session.HexPrint.{from_str_radix16-format}
use smart_gate.Usage.Numbers.{as_u32, parse_i32}
use smart_gate.Usage.Prints.{FitsI32, parse_i32-minus, parse_i32-to_decimal}
use smart_gate.Warm.Store.{WarmContext}
use smart_gate.Proxy.Affinity.{WarmAffinity}
use smart_gate.Proxy.Metadata.{
  int_text, stamp_affinity, stamp_chat_metadata, stamp_core_metadata, stamp_warm,
}
use smart_gate.Proxy.Stages.{SlimStats}
use smart_gate.Proxy.State.{Caller}

parse_i32-int_text : (n : ℤ) → FitsI32 n → parse_i32 (int_text n) ≡ some n
unfolding int_text
parse_i32-int_text (pos n) h = parse_i32-to_decimal n h
parse_i32-int_text (negsuc n) h = parse_i32-minus n h

-- The keys that only a warm context stamps are others.
stamp_warm-else :
    (w : Option WarmContext) (m : Map Text Text)
    → (stamp_warm w m (codes "pool_id") ≡ m (codes "pool_id"))
      × (stamp_warm w m (codes "prefix_hash") ≡ m (codes "prefix_hash"))
      × (stamp_warm w m (codes "sticky_endpoint_id") ≡ m (codes "sticky_endpoint_id"))
unfolding stamp_warm put Text-discrete
stamp_warm-else none m = (refl, refl, refl)
stamp_warm-else (some w) m = (refl, refl, refl)

-- A hash of 64 bits, if there is one.
abbrev pub FitsHash : Option ℕ → Type 0
FitsHash none = Unit
FitsHash (some h) = h < 2 ^ 64

parsed_hash :
    (h : Option ℕ) → FitsHash h → and_then (map_option format_prefix_hash h) from_str_radix16 ≡ h
parsed_hash none f = refl
parsed_hash (some h) f = from_str_radix16-format h f

or_option-none : {A : Type 0} (o p : Option A) → p ≡ none → or_option o p ≡ o
or_option-none none p e = e
or_option-none (some a) p e = refl

-- What the hook makes of metadata with these entries.
read_back :
    (report : Report) (m : Map Text Text) (sid pool : Text) (epoch : ℕ) (hash : Option ℕ)
    (sticky : Option Text) (ttl : ℤ) (now later : ℕ) (sessions : Sessions)
    → report.error_kind ≡ none
    → m (codes "session_id") ≡ some sid
    → m (codes "pool_id") ≡ some pool
    → m (codes "affinity_enabled") ≡ some (codes "1")
    → as_u32 (i32_or (pos 0) (m (codes "context_epoch"))) ≡ epoch
    → and_then (m (codes "prefix_hash")) from_str_radix16 ≡ hash
    → m (codes "sticky_endpoint_id") ≡ sticky
    → i32_or (pos 3600) (m (codes "affinity_ttl_secs")) ≡ ttl
    → record_session (record report { metadata = m }) now later sessions
      ≡ record_success sessions
          (session_key pool sid epoch)
          report.selected_endpoint_id
          hash
          (is_key sticky report.selected_endpoint_id)
          ttl
          now
          later
unfolding record_session affinity_of Text-discrete
read_back report m sid pool epoch hash sticky ttl now later sessions e es ep ee eo eh et el =
    rw (es, ep, e, ee, ← eo, ← eh, ← et, ← el) refl

module _ {F : Type 0} (c : Caller F) (vm : VirtualModel) (strategy : Text) (input output : ℕ)
    (w : Option WarmContext) (a : WarmAffinity) (slim : SlimStats) (decision : Text)
    (downshift : Bool) (m : Map Text Text) where
  abbrev pub stamped_metadata : Map Text Text
  stamped_metadata =
      stamp_chat_metadata w a slim decision downshift
        (stamp_core_metadata c vm strategy input output m)

  module _ (no_hash : m (codes "prefix_hash") ≡ none)
      (no_sticky : m (codes "sticky_endpoint_id") ≡ none) where
    stamped_pool : stamped_metadata (codes "pool_id") ≡ some vm.pool_id
    unfolding stamp_chat_metadata stamp_affinity stamp_core_metadata put Text-discrete
    stamped_pool = (stamp_warm-else w _).0

    stamped_hash :
        stamped_metadata (codes "prefix_hash") ≡ map_option format_prefix_hash a.prefix_hash
    unfolding stamp_chat_metadata stamp_affinity stamp_core_metadata put Text-discrete
    stamped_hash = or_option-none _ _ ((stamp_warm-else w _).1 ∙ no_hash)

    stamped_sticky : stamped_metadata (codes "sticky_endpoint_id") ≡ a.sticky_endpoint_id
    unfolding stamp_chat_metadata stamp_affinity stamp_core_metadata put Text-discrete
    stamped_sticky = or_option-none _ _ ((stamp_warm-else w _).2 ∙ no_sticky)

    stamped_epoch : stamped_metadata (codes "context_epoch") ≡ some (to_decimal a.context_epoch)
    unfolding stamp_chat_metadata stamp_affinity put Text-discrete
    stamped_epoch = refl

    stamped_ttl : stamped_metadata (codes "affinity_ttl_secs") ≡ some (int_text a.affinity_ttl_secs)
    unfolding stamp_chat_metadata stamp_affinity put Text-discrete
    stamped_ttl = refl

    stamped_enabled :
        a.affinity_enabled ≡ true → stamped_metadata (codes "affinity_enabled") ≡ some (codes "1")
    unfolding stamp_chat_metadata stamp_affinity put Text-discrete
    stamped_enabled e = rw e refl

    stamped_session :
        (sid : Text) → a.session_id ≡ some sid → stamped_metadata (codes "session_id") ≡ some sid
    unfolding stamp_chat_metadata stamp_affinity put Text-discrete
    stamped_session sid e = rw e refl

    epoch_read :
        a.context_epoch < 2 ^ 31
        → as_u32 (i32_or (pos 0) (stamped_metadata (codes "context_epoch"))) ≡ a.context_epoch
    unfolding as_u32
    epoch_read h = rw (stamped_epoch, parse_i32-to_decimal a.context_epoch h) refl

    ttl_read :
        FitsI32 a.affinity_ttl_secs
        → i32_or (pos 3600) (stamped_metadata (codes "affinity_ttl_secs")) ≡ a.affinity_ttl_secs
    ttl_read h = rw (stamped_ttl, parse_i32-int_text a.affinity_ttl_secs h) refl

    -- A request that succeeds, with affinity and with a session, is recorded in the session that its
    -- handler looked up: the same key, the same hash of the prefix and lifetime, as a hit if the
    -- endpoint is the one that was bound. The epoch is below 2^31, and the request that the data
    -- plane made of the payload had no hash and no bound endpoint of its own.
    pub record_session-stamp :
        (report : Report) (sid : Text) (now later : ℕ) (sessions : Sessions)
        → report.error_kind ≡ none
        → a.session_id ≡ some sid
        → a.affinity_enabled ≡ true
        → a.context_epoch < 2 ^ 31
        → FitsI32 a.affinity_ttl_secs
        → FitsHash a.prefix_hash
        → record_session (record report { metadata = stamped_metadata }) now later sessions
          ≡ record_success sessions
              (session_key vm.pool_id sid a.context_epoch)
              report.selected_endpoint_id
              a.prefix_hash
              (is_key a.sticky_endpoint_id report.selected_endpoint_id)
              a.affinity_ttl_secs
              now
              later
    record_session-stamp report sid now later sessions e es ea ee et eh =
        read_back report stamped_metadata sid vm.pool_id a.context_epoch a.prefix_hash
          a.sticky_endpoint_id a.affinity_ttl_secs now later sessions e (stamped_session sid es)
          stamped_pool (stamped_enabled ea) (epoch_read ee)
          (ap (λ o. and_then o from_str_radix16) stamped_hash ∙ parsed_hash a.prefix_hash eh)
          stamped_sticky (ttl_read et)
