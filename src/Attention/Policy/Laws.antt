-- ===== src/Attention/Policy/Laws.antt =====
-- The comparison orders the items.
use hestiva_os.Base.{◌≡◌, ◌≢◌, ◌↔◌, arith}
use hestiva_os.Attention.Policy.{
  AttentionOrder, negative, zero_sign, positive, compare_attention_items,
}

-- What makes the comparison an order of the three items.
pub record IsOrder (a b c : AttentionOrder) : Type 0 where
  pub transitive :
      compare_attention_items a b ≢ positive
      → compare_attention_items b c ≢ positive
      → compare_attention_items a c ≢ positive
  pub opposite : (compare_attention_items a b ≡ negative) ↔ (compare_attention_items b a ≡ positive)
  pub equal :
      (compare_attention_items a b ≡ zero_sign)
      ↔ ((a.priority ≡ b.priority) × (a.due_at ≡ b.due_at) × (a.opened_at ≡ b.opened_at))

-- The comparison is a total order of the items by rank, then due time, then time of opening:
-- it is transitive, its opposite is the comparison the other way round, and items compare equal
-- exactly when they agree in all three.
pub compare-IsOrder : (a b c : AttentionOrder) → IsOrder a b c
unfolding compare_attention_items
compare-IsOrder a b c = record {
  transitive = ground arith;
  opposite = ground arith;
  equal = ground arith;
}
