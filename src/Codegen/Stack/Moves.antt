-- ===== src/Codegen/Stack/Moves.antt =====
-- Blocks of stack items that are moved, copied and dropped: moveIntoStack, rotateStackUp and the
-- like in libsolidity/codegen/CompilerUtils.cpp.
use jules_solidity_pppascal.Common.{
  zero, suc, get_elem?, length, set, ◌++◌, ◌∷◌, ◌≡◌, ap, some, ◌≤◌, ◌<◌, ◌+◌, refl, append_assoc,
  subst, arith, ◌∙◌, sym, length-append, ◌>>=◌, ◌-◌, Error, true, ◌>>◌, ◌%◌, if◌then◌else◌, false,
  [], ℕ,
}
use jules_solidity_pppascal.Assembly.{append_debug_info}
use jules_solidity_pppascal.Codegen.Context.{Context, unsigned_mod, append_context_debug_info}
use jules_solidity_pppascal.Codegen.Stack.{
  rotate_stack_down, swaps_down, append_swap, rotate_stack_up, times, utils_info, swaps_up,
  move_into_stack, List, Result, ok, stack_too_deep, Bool, assert_throw, leb,
}
use jules_solidity_pppascal.Codegen.Stack.Effects.{Runs, info-Runs, ok-Runs, bind-Runs}
use jules_solidity_pppascal.Codegen.Stack.Slots.{swap-Runs}
use jules_solidity_pppascal.Common.Int.{pos}
use jules_solidity_pppascal.Common.Text.{codes}

pub get_elem?-middle : (ys s : List ℕ) (y : ℕ) → get_elem? (ys ++ (y ∷ s)) (length ys) ≡ some y
get_elem?-middle [] s y = refl
get_elem?-middle (x ∷ ys) s y = get_elem?-middle ys s y

set-middle : (ys s : List ℕ) (y x : ℕ) → set (ys ++ (y ∷ s)) (length ys) x ≡ ys ++ (x ∷ s)
set-middle [] s y x = refl
set-middle (z ∷ ys) s y x = ap (λ l. z ∷ l) (set-middle ys s y x)

-- A list that is not empty, from its end.
pub snoc_view :
    (xs : List ℕ) (m : ℕ)
    → length xs ≡ suc m
    → (ys : List ℕ) × (y : ℕ) × (xs ≡ ys ++ y ∷ []) × (length ys ≡ m)
snoc_view [] m h = ground arith
snoc_view (x ∷ []) m h = ([], x, refl, omega (arith, h))
snoc_view (x ∷ z ∷ xs) zero h = ground arith
snoc_view (x ∷ z ∷ xs) (suc m) h =
    let (ys, y, same, size) = snoc_view (z ∷ xs) m (omega (arith, h)) in
    (x ∷ ys, y, ap (λ l. x ∷ l) same, ap suc size)

pub snoc_assoc : (ys s : List ℕ) (y : ℕ) → (ys ++ y ∷ []) ++ s ≡ ys ++ (y ∷ s)
snoc_assoc ys s y = append_assoc ys (y ∷ []) s

-- One SWAP: the top and the item behind `ys`.
pub swap_middle-Runs :
    (n h x y : ℕ) (c : Context) (ys s : List ℕ)
    → length ys ≡ n
    → n < 16
    → c.asm.current_deposit ≡ pos h
    → Runs h c (x ∷ (ys ++ (y ∷ s))) (y ∷ (ys ++ (x ∷ s))) (append_swap (suc n) c)
swap_middle-Runs n h x y c ys s size small height =
    subst (λ l. Runs h c (x ∷ (ys ++ (y ∷ s))) (y ∷ l) (append_swap (suc n) c))
      (ap (λ i. set (ys ++ (y ∷ s)) i x) (sym size) ∙ set-middle ys s y x)
      (swap-Runs n h x y c (ys ++ (y ∷ s)) small
        (ap (λ i. get_elem? (ys ++ (y ∷ s)) i) (sym size) ∙ get_elem?-middle ys s y) height)

-- SWAPm down to SWAP1 brings the top item below m others.
swaps_down-Runs :
    (m h x : ℕ) (ys s : List ℕ) (c : Context)
    → length ys ≡ m
    → m ≤ 16
    → c.asm.current_deposit ≡ pos h
    → Runs h c (x ∷ (ys ++ s)) (ys ++ (x ∷ s)) (swaps_down m c)
unfolding swaps_down
swaps_down-Runs zero h x [] s c size small height = ok-Runs h c (x ∷ s) height
swaps_down-Runs zero h x (y ∷ ys) s c size small height = ground arith
swaps_down-Runs (suc m) h x ys s c size small height =
    let (zs, z, same, size') = snoc_view ys m size in
    let parts : (r : List ℕ) → ys ++ r ≡ zs ++ (z ∷ r) =
      λ r. ap (λ l. l ++ r) same ∙ snoc_assoc zs r z in
    subst (λ l. Runs h c (x ∷ l) (ys ++ (x ∷ s)) (swaps_down (suc m) c)) (sym (parts s))
      (subst (λ l. Runs h c (x ∷ (zs ++ (z ∷ s))) l (swaps_down (suc m) c)) (sym (parts (x ∷ s)))
        (bind-Runs h h c (x ∷ (zs ++ (z ∷ s))) (z ∷ (zs ++ (x ∷ s))) (zs ++ (z ∷ (x ∷ s)))
          (append_swap (suc m) c) _
          (swap_middle-Runs m h x z c zs s size' (omega (arith, small)) height)
          λ f height'.
            swaps_down-Runs m h z zs (x ∷ s) (record c { asm = f }) size' (omega (arith, small))
              height'))

-- `left` swaps bring the last of the items behind `done` to the top.
swaps_up-Runs :
    (i h t w : ℕ) (done ws s : List ℕ) (c : Context)
    → length done ≡ i
    → i + length ws < 16
    → c.asm.current_deposit ≡ pos h
    → Runs h c
        (t ∷ (done ++ (ws ++ (w ∷ s))))
        (w ∷ (done ++ (t ∷ (ws ++ s))))
        (swaps_up (suc i) (suc (length ws)) c)
unfolding swaps_up
swaps_up-Runs i h t w done [] s c size small height =
    bind-Runs h h c _ _ _ (append_swap (suc i) c) _
      (swap_middle-Runs i h t w c done s size (omega (arith, small)) height)
      λ f height'. ok-Runs h (record c { asm = f }) _ height'
swaps_up-Runs i h t w done (z ∷ ws) s c size small height =
    bind-Runs h h c _ (z ∷ (done ++ (t ∷ (ws ++ (w ∷ s))))) _ (append_swap (suc i) c) _
      (swap_middle-Runs i h t z c done (ws ++ (w ∷ s)) size (omega (arith, small)) height)
      λ f height'.
        (let more =
            swaps_up-Runs (suc i) h z w (done ++ t ∷ []) ws s (record c { asm = f })
              (length-append done (t ∷ []) ∙ omega (arith, size)) (omega (arith, small)) height' in
          subst
            (λ l.
              Runs h (record c { asm = f }) (z ∷ (done ++ (t ∷ (ws ++ (w ∷ s))))) (w ∷ l)
                (swaps_up (suc (suc i)) (suc (length ws)) (record c { asm = f })))
            (snoc_assoc done (z ∷ (ws ++ s)) t)
            (subst
              (λ l.
                Runs h (record c { asm = f }) (z ∷ l) (w ∷ ((done ++ t ∷ []) ++ (z ∷ (ws ++ s))))
                  (swaps_up (suc (suc i)) (suc (length ws)) (record c { asm = f })))
              (snoc_assoc done (ws ++ (w ∷ s)) t) more))

-- Debug information before and after.
pub around-Runs :
    (h h' : ℕ) (c : Context) (s s' : List ℕ) (before after : List ℕ) (m : Context → Result Context)
    → c.asm.current_deposit ≡ pos h
    → ((d : Context)
        → d.evm_version ≡ c.evm_version
        → d.asm.current_deposit ≡ pos h
        → Runs h' d s s' (m d))
    → Runs h' c s s' (m (utils_info before c) >>= λ c'. ok (append_context_debug_info after c'))
unfolding utils_info append_context_debug_info append_debug_info
around-Runs h h' c s s' before after m height runs =
    info-Runs h' c s s' (codes "CompilerUtils::" ++ before) _ (
      bind-Runs h' h' (utils_info before c) s s' s' (m (utils_info before c)) _
        (runs (utils_info before c) refl height)
        λ f height'.
          info-Runs h' (record (utils_info before c) { asm = f }) s' s' after _
            (ok-Runs h' (append_context_debug_info after (record (utils_info before c) { asm = f }))
              s' height'))

pub assert-Runs :
    (h : ℕ) (c : Context) (s s' : List ℕ) (cond : Bool) (e : Error) (k : Result Context)
    → cond ≡ true
    → Runs h c s s' k
    → Runs h c s s' (assert_throw cond e >> k)
assert-Runs h c s s' cond e k holds runs =
    subst (λ b. Runs h c s s' (assert_throw b e >> k)) (sym holds) runs

-- The same stacks, written another way, and the same call.
pub recast-Runs :
    (h : ℕ) (c : Context) (s s₁ t t₁ : List ℕ) (r r₁ : Result Context)
    → s ≡ s₁
    → t ≡ t₁
    → r ≡ r₁
    → Runs h c s t r
    → Runs h c s₁ t₁ r₁
recast-Runs h c s s₁ t t₁ r r₁ p q e runs =
    subst (λ x. Runs h c x t₁ r₁) p (subst (λ x. Runs h c s x r₁) q (subst (Runs h c s t) e runs))

rotate_up-Runs :
    (h x : ℕ) (ys s : List ℕ) (c : Context)
    → length ys ≤ 16
    → c.asm.current_deposit ≡ pos h
    → Runs h c (x ∷ (ys ++ s)) (ys ++ (x ∷ s)) (rotate_stack_up (suc (length ys)) c)
unfolding rotate_stack_up
rotate_up-Runs h x ys s c small height = assert-Runs h c _ _ _ stack_too_deep _ (ground arith) (
    around-Runs h h c _ _ _ _ (swaps_down (suc (length ys) - 1)) height λ d _ height'.
      swaps_down-Runs (suc (length ys) - 1) h x ys s d (omega arith) (omega (arith, small)) height')

down_swaps-Runs :
    (h w : ℕ) (ys s : List ℕ) (c : Context)
    → length ys ≤ 16
    → c.asm.current_deposit ≡ pos h
    → Runs h c (ys ++ (w ∷ s)) (w ∷ (ys ++ s)) (swaps_up 1 (suc (length ys) - 1) c)
unfolding swaps_up
down_swaps-Runs h w [] s c small height = ok-Runs h c (w ∷ s) height
down_swaps-Runs h w (t ∷ ws) s c small height =
    let count : suc (length ws) ≡ suc (suc (length ws)) - 1 = omega arith in
    recast-Runs h c _ _ _ _ _ _ refl refl (ap (λ k. swaps_up 1 k c) count)
      (swaps_up-Runs 0 h t w [] ws s c refl (omega (arith, small)) height)

rotate_down-Runs :
    (h w : ℕ) (ys s : List ℕ) (c : Context)
    → length ys ≤ 16
    → c.asm.current_deposit ≡ pos h
    → Runs h c (ys ++ (w ∷ s)) (w ∷ (ys ++ s)) (rotate_stack_down (suc (length ys)) c)
unfolding rotate_stack_down swaps_up
rotate_down-Runs h w ys s c small height = assert-Runs h c _ _ _ stack_too_deep _ (ground arith) (
    around-Runs h h c _ _ _ _ (swaps_up 1 (suc (length ys) - 1)) height
      λ d _ height'. down_swaps-Runs h w ys s d small height')

-- The block `top` goes below the block `mid`, one item a time.
up_times-Runs :
    (h n : ℕ) (top mid s : List ℕ) (c : Context)
    → length top + length mid ≡ n
    → n ≤ 17
    → c.asm.current_deposit ≡ pos h
    → Runs h c (top ++ (mid ++ s)) (mid ++ (top ++ s)) (times (length top) (rotate_stack_up n) c)
unfolding times
up_times-Runs h n [] mid s c size small height = ok-Runs h c (mid ++ s) height
up_times-Runs h n (x ∷ top) mid s c size small height =
    let size' : length (top ++ mid) ≡ n - 1 = length-append top mid ∙ omega (arith, size) in
    let bound : length (top ++ mid) ≤ 16 = omega (arith, size', small) in
    let count : suc (length (top ++ mid)) ≡ n = omega (arith, size', size) in
    bind-Runs h h c _ (top ++ ((mid ++ x ∷ []) ++ s)) _ (rotate_stack_up n c) _
      (recast-Runs h c _ _ _ _ _ _ (ap (λ l. x ∷ l) (append_assoc top mid s))
        (append_assoc top mid (x ∷ s) ∙ ap (λ l. top ++ l) (sym (snoc_assoc mid s x)))
        (ap (λ k. rotate_stack_up k c) count) (rotate_up-Runs h x (top ++ mid) s c bound height))
      λ f height'.
        recast-Runs h (record c { asm = f }) _ _ _ _ _ _ refl (snoc_assoc mid (top ++ s) x) refl
          (up_times-Runs h n top (mid ++ x ∷ []) s (record c { asm = f })
            (ap (λ k. length top + k) (length-append mid (x ∷ [])) ∙ omega (arith, size)) small
            height')

down_times-Runs :
    (m h n : ℕ) (top mid s : List ℕ) (c : Context)
    → length mid ≡ m
    → length top + m ≡ n
    → n ≤ 17
    → c.asm.current_deposit ≡ pos h
    → Runs h c (top ++ (mid ++ s)) (mid ++ (top ++ s)) (times m (rotate_stack_down n) c)
unfolding times
down_times-Runs zero h n top [] s c size total small height = ok-Runs h c (top ++ s) height
down_times-Runs zero h n top (x ∷ mid) s c size total small height = ground arith
down_times-Runs (suc m) h n top mid s c size total small height =
    let (front, w, same, size') = snoc_view mid m size in
    let parts : (r : List ℕ) → front ++ (w ∷ r) ≡ mid ++ r =
      λ r. sym (snoc_assoc front r w) ∙ ap (λ l. l ++ r) (sym same) in
    let size'' : length (top ++ front) ≡ n - 1 =
      length-append top front ∙ omega (arith, total, size') in
    let bound : length (top ++ front) ≤ 16 = omega (arith, size'', small) in
    let count : suc (length (top ++ front)) ≡ n = omega (arith, size'', total) in
    bind-Runs h h c _ ((w ∷ top) ++ (front ++ s)) _ (rotate_stack_down n c) _
      (recast-Runs h c _ _ _ _ _ _ (append_assoc top front (w ∷ s) ∙ ap (λ l. top ++ l) (parts s))
        (ap (λ l. w ∷ l) (append_assoc top front s)) (ap (λ k. rotate_stack_down k c) count)
        (rotate_down-Runs h w (top ++ front) s c bound height))
      λ f height'.
        recast-Runs h (record c { asm = f }) _ _ _ _ _ _ refl (parts (top ++ s)) refl
          (down_times-Runs m h n (w ∷ top) front s (record c { asm = f }) size'
            (omega (arith, total)) small height')

pub if-Runs :
    (h : ℕ) (c : Context) (s s' : List ℕ) (b : Bool) (one other : Result Context)
    → (b ≡ true → Runs h c s s' one)
    → Runs h c s s' other
    → Runs h c s s' (if b then one else other)
if-Runs h c s s' true one other runs runs' = runs refl
if-Runs h c s s' false one other runs runs' = runs'

-- moveIntoStack moves the block on the top below the block under it: if the two have at most 17
-- items, the call succeeds, and the code that it appends exchanges them. The height stays.
pub move_into_stack-Runs :
    (h : ℕ) (top mid s : List ℕ) (c : Context)
    → length top + length mid ≤ 17
    → c.asm.current_deposit ≡ pos h
    → Runs h c (top ++ (mid ++ s)) (mid ++ (top ++ s)) (move_into_stack (length mid) (length top) c)
unfolding move_into_stack utils_info
move_into_stack-Runs h top mid s c small height =
    let n = (length mid + length top) % unsigned_mod in
    let count : length top + length mid ≡ n = ground arith in
    info-Runs h c _ _ _ _ (
      if-Runs h _ _ _ (leb (length mid) (length top)) _ _
        (λ _.
          down_times-Runs (length mid) h n top mid s _ refl count (omega (arith, count, small))
            height)
        (up_times-Runs h n top mid s _ count (omega (arith, count, small)) height))
