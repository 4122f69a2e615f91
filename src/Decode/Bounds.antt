-- ===== src/Decode/Bounds.antt =====
-- The steps of the decoder of decode-sign-action.ts, and the bounds of the buffer.
use fast_auth_indexer_api.Prelude.{
  ℕ, zero, suc, ◌+◌, ◌*◌, ◌≤◌, ◌≡◌, inl, inr, Bool, true, false, Option, some, List, arith, ◌==◌,
  if◌then◌else◌, Bool-cases, length, bind-some,
}
use fast_auth_indexer_api.Decode.{
  at, read_u32_le, within, skip_length_prefixed, key_len, skip_public_key, skip_methods,
  skip_function_call_permission, skip_receiver_and_methods, skip_permission, skip_access_key,
  skip_function_call, skip_add_key, skip_body, skip_action, skip_actions,
}

-- A step from one offset to another: forward by at least `least`, and within the buffer.
record IsStep (buf : List ℕ) (least offset next : ℕ) : Type 0 where
  moves : offset + least ≤ next
  stays : next ≤ length buf

within-IsStep :
    (buf : List ℕ) (least offset next : ℕ)
    → within buf (offset + least) ≡ some next
    → IsStep buf least offset next
unfolding within
within-IsStep buf least offset next p = record { moves = ground arith; stays = ground arith }

within-value :
    (buf : List ℕ) (target next : ℕ)
    → within buf target ≡ some next
    → (target ≡ next) × (next ≤ length buf)
unfolding within
within-value buf target next p = (ground arith, ground arith)

skip_length_prefixed-IsStep :
    (buf : List ℕ) (offset next : ℕ)
    → skip_length_prefixed buf offset ≡ some next
    → IsStep buf 4 offset next
unfolding skip_length_prefixed
skip_length_prefixed-IsStep buf offset next p =
    let (len, (_, q)) = bind-some (read_u32_le buf offset) _ next p in
    let (same, stays) = within-value buf (offset + 4 + len) next q in
    record { moves = omega (arith, same); stays = stays }

skip_public_key-IsStep :
    (buf : List ℕ) (offset next : ℕ)
    → skip_public_key buf offset ≡ some next
    → IsStep buf 1 offset next
unfolding skip_public_key
skip_public_key-IsStep buf offset next p =
    let (start, (s, q)) = bind-some (within buf (offset + 1)) _ next p in
    let (len, (_, r)) = bind-some (key_len (at buf offset)) _ next q in
    let (same_start, _) = within-value buf (offset + 1) start s in
    let (same, stays) = within-value buf (start + len) next r in
    record { moves = omega (arith, same_start, same); stays = stays }

skip_methods-IsStep :
    (buf : List ℕ) (count offset next : ℕ)
    → offset ≤ length buf
    → skip_methods buf count offset ≡ some next
    → IsStep buf (count * 4) offset next
unfolding skip_methods
skip_methods-IsStep buf zero offset next le p = record {
  moves = ground arith;
  stays = ground arith;
}
skip_methods-IsStep buf (suc count) offset next le p =
    let (middle, (s, q)) = bind-some (skip_length_prefixed buf offset) _ next p in
    let first = skip_length_prefixed-IsStep buf offset middle s in
    let later = skip_methods-IsStep buf count middle next first.stays q in
    record { moves = omega (arith, first.moves, later.moves); stays = later.stays }

read_u32_le-fits :
    (buf : List ℕ) (offset n : ℕ) → read_u32_le buf offset ≡ some n → offset + 4 ≤ length buf
unfolding read_u32_le
read_u32_le-fits buf offset n p = ground arith

skip_function_call_permission-IsStep :
    (buf : List ℕ) (offset next : ℕ)
    → skip_function_call_permission buf offset ≡ some next
    → IsStep buf 1 offset next
unfolding skip_function_call_permission skip_receiver_and_methods
skip_function_call_permission-IsStep buf offset next p =
    let (start, (s, q)) = bind-some (within buf (offset + 1)) _ next p in
    let (same_start, _) = within-value buf (offset + 1) start s in
    let from = if at buf offset == 1 then start + 16 else start in
    let (receiver, (t, r)) = bind-some (skip_length_prefixed buf from) _ next q in
    let (method_count, (u, v)) = bind-some (read_u32_le buf receiver) _ next r in
    let first = skip_length_prefixed-IsStep buf from receiver t in
    let fits = read_u32_le-fits buf receiver method_count u in
    let later = skip_methods-IsStep buf method_count (receiver + 4) next fits v in
    record { moves = ground (arith, same_start, first.moves, later.moves); stays = later.stays }

skip_access_key-IsStep :
    (buf : List ℕ) (offset next : ℕ)
    → skip_access_key buf offset ≡ some next
    → IsStep buf 9 offset next
unfolding skip_access_key skip_permission
skip_access_key-IsStep buf offset next p =
    let (start, (s, q)) = bind-some (within buf (offset + 8 + 1)) _ next p in
    let (same, fits) = within-value buf (offset + 8 + 1) start s in
    elim (Bool-cases (at buf (offset + 8) == 1)) [
      | inl full ↦ record {
        moves = ground (arith, same, q, full);
        stays = ground (arith, same, q, full, fits);
      }
      | inr limited ↦ elim (Bool-cases (at buf (offset + 8) == 0)) [
        | inl calls ↦
            let step =
              skip_function_call_permission-IsStep buf start next
                (ground (arith, q, limited, calls)) in
            record { moves = omega (arith, same, step.moves); stays = step.stays }
        | inr neither ↦ absurd (ground (arith, q, limited, neither))
      ]
    ]

skip_function_call-IsStep :
    (buf : List ℕ) (offset next : ℕ)
    → skip_function_call buf offset ≡ some next
    → IsStep buf 32 offset next
unfolding skip_function_call
skip_function_call-IsStep buf offset next p =
    let (args, (s, q)) = bind-some (skip_length_prefixed buf offset) _ next p in
    let (gas, (t, r)) = bind-some (skip_length_prefixed buf args) _ next q in
    let first = skip_length_prefixed-IsStep buf offset args s in
    let second = skip_length_prefixed-IsStep buf args gas t in
    let (same, stays) = within-value buf (gas + 24) next r in
    record { moves = omega (arith, first.moves, second.moves, same); stays = stays }

skip_add_key-IsStep :
    (buf : List ℕ) (offset next : ℕ)
    → skip_add_key buf offset ≡ some next
    → IsStep buf 10 offset next
unfolding skip_add_key
skip_add_key-IsStep buf offset next p =
    let (access_key, (s, q)) = bind-some (skip_public_key buf offset) _ next p in
    let first = skip_public_key-IsStep buf offset access_key s in
    let second = skip_access_key-IsStep buf access_key next q in
    record { moves = omega (arith, first.moves, second.moves); stays = second.stays }

weaken :
    (buf : List ℕ) (least offset from next : ℕ)
    → offset ≤ from
    → IsStep buf least from next
    → IsStep buf 0 offset next
weaken buf least offset from next le step = record {
  moves = omega (arith, step.moves, le);
  stays = step.stays;
}

-- What holds after both branches of a test.
either {ℓ} :
    {S : Type ℓ} (b : Bool) (x y : Option ℕ) (next : ℕ)
    → (x ≡ some next → S)
    → (y ≡ some next → S)
    → (if b then x else y) ≡ some next
    → S
either true x y next then_holds else_holds p = then_holds p
either false x y next then_holds else_holds p = else_holds p

skip_body-IsStep :
    (buf : List ℕ) (tag offset next : ℕ)
    → offset ≤ length buf
    → skip_body tag buf offset ≡ some next
    → IsStep buf 0 offset next
unfolding skip_body
skip_body-IsStep buf tag offset next le =
    let prefixed : skip_length_prefixed buf offset ≡ some next → IsStep buf 0 offset next = λ p.
      weaken buf 4 offset offset next (omega arith)
        (skip_length_prefixed-IsStep buf offset next p) in
    either (tag == 0) _ _ next
      (λ p. record { moves = ground (arith, p); stays = ground (arith, p) })
      (either (tag == 1) _ _ next prefixed (
        either (tag == 2) _ _ next
          (λ p.
            weaken buf 32 offset offset next (omega arith)
              (skip_function_call-IsStep buf offset next p))
          (either (tag == 3) _ _ next
            (λ p.
              weaken buf 16 offset offset next (omega arith) (within-IsStep buf 16 offset next p))
            (either (tag == 4) _ _ next
              (λ p.
                weaken buf 1 offset (offset + 16) next (omega arith)
                  (skip_public_key-IsStep buf (offset + 16) next p))
              (either (tag == 5) _ _ next
                (λ p.
                  weaken buf 10 offset offset next (omega arith)
                    (skip_add_key-IsStep buf offset next p))
                (either (tag == 6) _ _ next
                  (λ p.
                    weaken buf 1 offset offset next (omega arith)
                      (skip_public_key-IsStep buf offset next p))
                  (either (tag == 7) _ _ next prefixed (λ p. cc))))))))

skip_action-IsStep :
    (buf : List ℕ) (offset next : ℕ) → skip_action buf offset ≡ some next → IsStep buf 1 offset next
unfolding skip_action
skip_action-IsStep buf offset next p =
    let (body, (s, q)) = bind-some (within buf (offset + 1)) _ next p in
    let (same, fits) = within-value buf (offset + 1) body s in
    let step = skip_body-IsStep buf (at buf offset) body next fits q in
    record { moves = omega (arith, same, step.moves); stays = step.stays }

-- When the loop over `count` actions reaches an end, it has moved over at least `count` bytes of the
-- buffer and stands within it: no count in a payload makes the loop run longer than the payload.
pub skip_actions-IsBounded :
    (buf : List ℕ) (count offset next : ℕ)
    → offset ≤ length buf
    → skip_actions buf count offset ≡ some next
    → (offset + count ≤ next) × (next ≤ length buf)
unfolding skip_actions
skip_actions-IsBounded buf zero offset next le p = (ground arith, ground arith)
skip_actions-IsBounded buf (suc count) offset next le p =
    let (middle, (s, q)) = bind-some (skip_action buf offset) _ next p in
    let first = skip_action-IsStep buf offset middle s in
    let (moves, stays) = skip_actions-IsBounded buf count middle next first.stays q in
    (omega (arith, first.moves, moves), stays)
