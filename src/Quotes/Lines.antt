-- ===== src/Quotes/Lines.antt =====
-- Price lines and attention reasons: the types of apps/api/src/quotes/website-quote-contract.ts and
-- the helpers `line` and `attention` of website-quote-pricing.ts and quote-admin-repricing.ts.
use hestiva_os.Base.{◌≡◌, arith, ℕ, ◌+◌, ◌*◌, String, List, [], ◌∷◌, ◌++◌, sum_by}

pub record WebsiteQuotePricingLine : Type 0 where
  pub code : String
  pub label : String
  pub quantity : ℕ
  pub unit_amount_minor : ℕ
  pub line_amount_minor : ℕ

-- Where an attention reason points: a path, or `request.addOns.<index>`.
pub data AttentionPath : Type 0 where
  at : String → AttentionPath
  at_add_on : ℕ → AttentionPath

pub record AttentionReason : Type 0 where
  pub code : String
  pub path : AttentionPath
  pub message : String

unfoldable pub line : String → String → ℕ → ℕ → WebsiteQuotePricingLine
line c l q u = record {
  code = c;
  label = l;
  quantity = q;
  unit_amount_minor = u;
  line_amount_minor = u * q;
}

abbrev pub attention : String → AttentionPath → String → AttentionReason
attention c p m = record { code = c; path = p; message = m }

-- What a pricing step pushes onto the two arrays that it is handed.
pub record Pushed : Type 0 where
  pub lines : List WebsiteQuotePricingLine
  pub reasons : List AttentionReason

abbrev pub pushed : List WebsiteQuotePricingLine → List AttentionReason → Pushed
pushed ls rs = record { lines = ls; reasons = rs }

-- One step after another, on the same arrays.
infixr 66 ◌⊕◌
abbrev pub ◌⊕◌ : Pushed → Pushed → Pushed
p ⊕ q = pushed (p.lines ++ q.lines) (p.reasons ++ q.reasons)

-- `lines.reduce((sum, item) => sum + item.lineAmountMinor, 0)`
abbrev add_lines : ℕ → List WebsiteQuotePricingLine → ℕ
add_lines sum [] = sum
add_lines sum (l ∷ ls) = add_lines (sum + l.line_amount_minor) ls

unfoldable pub subtotal_of : List WebsiteQuotePricingLine → ℕ
subtotal_of lines = add_lines 0 lines

add_lines-eq-add :
    (sum : ℕ) (ls : List WebsiteQuotePricingLine)
    → add_lines sum ls ≡ sum + sum_by (λ l. l.line_amount_minor) ls
add_lines-eq-add sum [] = omega arith
add_lines-eq-add sum (l ∷ ls) = omega (arith, add_lines-eq-add (sum + l.line_amount_minor) ls)

pub subtotal_of_lem :
    (ls : List WebsiteQuotePricingLine) → subtotal_of ls ≡ sum_by (λ l. l.line_amount_minor) ls
unfolding subtotal_of
subtotal_of_lem ls = omega (arith, add_lines-eq-add 0 ls)
