-- ===== src/Agent/Tools.antt =====
-- The tools of the agent: `search_legal` of agent/src/agent_app/tools/legal.py and `_safe_eval` of
-- tools/sample.py.
use agentchatbot_v.Prelude.{
  ℕ, arith, ◌≡◌, refl, ap, ap₂, ◌∙◌, ◌++◌, Bool, true, false, ◌||◌, Option, none, some, ltb,
  if◌then◌else◌, length,
}
use agentchatbot_v.Text.{Text, codes, strip, is_empty}
use agentchatbot_v.Corpus.Retrieval.{AnswerContext}

pub record Reply (S : Type 0) : Type 0 where
  pub content : Text
  pub artifact : Option (AnswerContext S)

abbrev said : {S : Type 0} → Text → Reply S
said s = record { content = s; artifact = none }

-- What the search service does with a query: a context, NotImplementedError with its text, or
-- another exception.
pub data Answer (S : Type 0) : Type 0 where
  found : AnswerContext S → Answer S
  unsupported : Text → Answer S
  failed : Answer S

-- `quote` and so on are parameters of `format_for_llm`; `format` is that function.
module _ {S : Type 0} (format : AnswerContext S → Text) where
  abbrev told : Answer S → Reply S
  told (found ctx) = record { content = format ctx; artifact = some ctx }
  told (unsupported why) = said (codes "법령 검색 미지원: " ++ why)
  told failed = said (codes "법령 검색 중 일시적 오류가 발생했습니다. 잠시 후 다시 시도하세요.")

  -- `search_legal`; an empty and a long query are answered without a search.
  unfoldable pub search_legal : (Text → Answer S) → Text → Reply S
  unfolding strip
  search_legal retrieve query =
      let q = strip query in
      if is_empty q
      then said (codes "검색어가 비어 있습니다. 찾고 싶은 법령 내용을 입력하세요.")
      else if ltb 2000 (length q)
      then said (codes "질의가 너무 깁니다. 핵심 키워드로 줄여서 다시 검색하세요.")
      else told (retrieve q)

pub data Op : Type 0 where
  add sub mult div floor_div modulo : Op
  pow : Op

pub data UnaryOp : Type 0 where
  negate keep : UnaryOp

-- The expressions that `ast.parse` gives; `foreign` is any other node.
pub data Expr (N : Type 0) : Type 0 where
  constant : N → Expr N
  binary : Op → Expr N → Expr N → Expr N
  unary : UnaryOp → Expr N → Expr N
  foreign : Expr N

-- Python's numbers: `none` is an exception of the operation. `exceeds n x` is `abs(x) > n`.
pub record Numbers (N : Type 0) : Type 0 where
  pub arithmetic : Op → N → N → Option N
  pub signed : UnaryOp → N → Option N
  pub exceeds : ℕ → N → Bool

module _ {N : Type 0} (num : Numbers N) (power : N → N → Option N) where
  abbrev pub too_big : N → N → Bool
  too_big left right = num.exceeds 1_000 right || num.exceeds 1_000_000 left

  abbrev pub apply : Op → N → N → Option N
  apply Op.pow left right = if too_big left right then none else power left right
  apply op left right = num.arithmetic op left right

  abbrev pub apply_both : Op → Option N → Option N → Option N
  apply_both op none right = none
  apply_both op (some left) none = none
  apply_both op (some left) (some right) = apply op left right

  abbrev pub apply_one : UnaryOp → Option N → Option N
  apply_one op none = none
  apply_one op (some n) = num.signed op n

  -- `_safe_eval`
  unfoldable pub safe_eval : Expr N → Option N
  safe_eval (constant n) = some n
  safe_eval (binary op left right) = apply_both op (safe_eval left) (safe_eval right)
  safe_eval (unary op operand) = apply_one op (safe_eval operand)
  safe_eval foreign = none

-- The calculator computes no power beyond its bounds: on the same expression, two functions for powers
-- that agree where the exponent is at most 1,000 and the base at most 1,000,000 in absolute value give
-- the same result.
pub safe_eval_guarded :
    {N : Type 0} (num : Numbers N) (p q : N → N → Option N)
    (agree : (a b : N)
      → num.exceeds 1_000_000 a ≡ false
      → num.exceeds 1_000 b ≡ false
      → p a b ≡ q a b)
    (e : Expr N)
    → safe_eval num p e ≡ safe_eval num q e
unfolding safe_eval
safe_eval_guarded num p q agree (constant n) = refl
safe_eval_guarded {N} num p q agree (binary op left right) =
    ap₂ (apply_both num p op) (safe_eval_guarded num p q agree left)
      (safe_eval_guarded num p q agree right)
    ∙ same op (safe_eval num q left) (safe_eval num q right)
  where
    powers :
        (b : Bool) (x y : N)
        → too_big num p x y ≡ b
        → (if b then none else p x y) ≡ (if b then none else q x y)
    powers true x y e = refl
    powers false x y e = agree x y (ground arith) (ground arith)

    same : (o : Op) (x y : Option N) → apply_both num p o x y ≡ apply_both num q o x y
    same o none y = refl
    same o (some x) none = refl
    same Op.pow (some x) (some y) = powers (too_big num p x y) x y refl
    same Op.add (some x) (some y) = refl
    same Op.sub (some x) (some y) = refl
    same Op.mult (some x) (some y) = refl
    same Op.div (some x) (some y) = refl
    same Op.floor_div (some x) (some y) = refl
    same Op.modulo (some x) (some y) = refl
safe_eval_guarded num p q agree (unary op operand) =
    ap (apply_one num p op) (safe_eval_guarded num p q agree operand)
safe_eval_guarded num p q agree foreign = refl
