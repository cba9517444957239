-- ===== src/Proxy/Metadata.antt =====
-- src/api/proxy.rs: the metadata that a request carries through the data plane to its usage row.
use smart_gate.Session.Ids.{or_option}
use smart_gate.Base.{
  Bool, Option, Text, Text-discrete, [], codes, if◌then◌else◌, ite, map_option, none, some, suc, ℕ,
  ◌∷◌,
}
use smart_gate.Base.Headers.{insert}
use smart_gate.Base.Int.{negsuc, pos, ℤ}
use smart_gate.Base.Map.{Map, or_else, put}
use smart_gate.Auth.Models.{VirtualModel}
use smart_gate.Context.Text.{to_decimal}
use smart_gate.Session.Hash.{format_prefix_hash}
use smart_gate.Warm.Store.{Delivery, WarmContext, delta, full}
use smart_gate.Proxy.State.{Caller}
use smart_gate.Proxy.Stages.{SlimStats}
use smart_gate.Proxy.Affinity.{WarmAffinity}

-- `to_string` of an integer.
unfoldable pub int_text : ℤ → Text
unfolding to_decimal
int_text (pos n) = to_decimal n
int_text (negsuc n) = 45 ∷ to_decimal (suc n)

-- `insert`, if there is a value.
abbrev pub insert_some : Text → Option Text → Map Text Text → Map Text Text
insert_some key value m j = ite (Text-discrete key j) (or_option value (m j)) (m j)

abbrev pub flag_text : Bool → Text
flag_text b = if b then codes "1" else codes "0"

module _ {F : Type 0} where
  unfoldable pub stamp_core_metadata :
      Caller F
      → VirtualModel
      → (strategy : Text) (input_tokens output_tokens : ℕ) → Map Text Text
      → Map Text Text
  unfolding put to_decimal
  stamp_core_metadata c vm strategy input_tokens output_tokens m =
      insert (codes "output_tokens_est") (to_decimal output_tokens) (
        insert (codes "input_tokens_est") (to_decimal input_tokens) (
          insert (codes "routing_strategy") strategy (
            insert (codes "pool_id") vm.pool_id (
              insert (codes "virtual_model_id") vm.id (
                insert (codes "key_id") c.key_id (
                  insert (codes "project_id") c.project_id
                    (insert (codes "org_id") c.org_id m)))))))

abbrev delivery_text : Delivery → Text
delivery_text full = codes "full"
delivery_text delta = codes "delta"

unfoldable pub stamp_warm : Option WarmContext → Map Text Text → Map Text Text
unfolding put int_text
stamp_warm none m = m
stamp_warm (some c) m = insert_some (codes "zene_request_id") c.request_id (
    insert_some (codes "zene_prefix_hash") c.prefix_hash (
      insert_some (codes "zene_context_epoch") (map_option int_text c.epoch) (
        insert (codes "zene_delivery") (delivery_text c.delivery)
          (insert (codes "zene_session_id") (or_else c.session_id []) m))))

-- The facts of the session, the last of the keys but one.
unfoldable pub stamp_affinity : WarmAffinity → Map Text Text → Map Text Text
unfolding put to_decimal int_text format_prefix_hash
stamp_affinity a m = insert (codes "affinity_ttl_secs") (int_text a.affinity_ttl_secs) (
    insert_some (codes "sticky_endpoint_id") a.sticky_endpoint_id (
      insert (codes "affinity_applied") (flag_text a.affinity_applied) (
        insert (codes "affinity_enabled") (flag_text a.affinity_enabled) (
          insert (codes "context_epoch") (to_decimal a.context_epoch) (
            insert_some (codes "prefix_hash") (map_option format_prefix_hash a.prefix_hash) (
              insert_some (codes "turn_index") (map_option to_decimal a.turn_index)
                (insert_some (codes "session_id") a.session_id m)))))))

unfoldable pub stamp_chat_metadata :
    Option WarmContext
    → WarmAffinity
    → SlimStats
    → (decision : Text) (downshift : Bool) → Map Text Text
    → Map Text Text
unfolding put to_decimal stamp_warm stamp_affinity
stamp_chat_metadata context affinity slim decision downshift m =
    let base = insert (codes "trimmed_chars") (to_decimal slim.slimmed_chars) (
      insert (codes "tool_message_chars") (to_decimal slim.tool_chars_before)
        (insert (codes "routing_decision") decision (stamp_warm context m))) in
    insert_some (codes "budget_downshift") (if downshift then some (codes "1") else none)
      (stamp_affinity affinity base)
