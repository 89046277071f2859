-- ===== src/PamConf/Placing.antt =====
-- Where `insert_block` puts the block.
use mathlib.Core.List.{append-nil}
use time_bandits.Base.{
  ◌≡◌, refl, sym, ap, ◌∙◌, true, false, none, some, List, [], ◌∷◌, ◌++◌, Text, any, all, arith,
  Option-cases, inl, inr,
}
use time_bandits.PamConf.Dropping.{unlines-append}
use time_bandits.PamConf.Lines.{
  newline, lines, unlines, ends_with_newline, is_line, lines-unlines_append,
}
use time_bandits.PamConf.Block.{
  ServiceSpec, Stack, block, block_lines, is_of, split_at_stack, terminated, place_at, place_block,
}

-- Where the block stands: between the lines that come before the stack and the others.
abbrev pub PlacedIn : List Text → ServiceSpec → Type 0
PlacedIn ls spec =
    (before : List Text) × (after : List Text) × (before ++ after ≡ ls)
    × (any (is_of spec.stack) before ≡ false)
    × ((place_block (unlines ls) spec).0 ≡ unlines (before ++ block_lines spec ++ after))

pub split_at_stack_lem :
    (stack : Stack) (ls before after : List Text)
    → split_at_stack stack ls ≡ some (before, after)
    → (before ++ after ≡ ls) × (any (is_of stack) before ≡ false)
unfolding split_at_stack
split_at_stack_lem stack [] before after h = (ground arith, ground arith)
split_at_stack_lem stack (l ∷ ls) before after h = elim (Option-cases (split_at_stack stack ls)) [
  | inl e ↦ (ground arith, ground arith)
  | inr (p, e) ↦
      let (parts, first) = split_at_stack_lem stack ls p.0 p.1 e in (ground arith, ground arith)
]

pub split_at_stack-none :
    (stack : Stack) (ls : List Text) → split_at_stack stack ls ≡ none → any (is_of stack) ls ≡ false
unfolding split_at_stack
split_at_stack-none stack [] h = refl
split_at_stack-none stack (l ∷ ls) h = elim (Option-cases (split_at_stack stack ls)) [
  | inl e ↦ let rest = split_at_stack-none stack ls e in ground arith
  | inr (p, e) ↦ ground arith
]

pub ends_with_newline-append :
    (s t : Text) → ends_with_newline t ≡ true → ends_with_newline (s ++ t) ≡ true
unfolding ends_with_newline
ends_with_newline-append [] t h = h
ends_with_newline-append (c ∷ []) [] h = ground arith
ends_with_newline-append (c ∷ []) (d ∷ t) h = h
ends_with_newline-append (c ∷ d ∷ s) t h = ends_with_newline-append (d ∷ s) t h

pub ends_with_newline-unlines : (ls : List Text) → ends_with_newline (newline ∷ unlines ls) ≡ true
unfolding unlines ends_with_newline
ends_with_newline-unlines [] = refl
ends_with_newline-unlines (l ∷ ls) =
    ends_with_newline-append (newline ∷ l) (newline ∷ unlines ls) (ends_with_newline-unlines ls)

pub terminated-unlines : (ls : List Text) → terminated (unlines ls) ≡ unlines ls
unfolding unlines
terminated-unlines [] = refl
terminated-unlines (l ∷ ls) =
    let ended = ends_with_newline-append l (newline ∷ unlines ls) (ends_with_newline-unlines ls) in
    ground arith

pub lines-unlines : (ls : List Text) → all is_line ls ≡ true → lines (unlines ls) ≡ ls
unfolding lines
lines-unlines ls h =
    ap lines (sym (append-nil (unlines ls))) ∙ lines-unlines_append ls [] h ∙ append-nil ls

pub place_block_lem :
    (ls : List Text) (spec : ServiceSpec) → all is_line ls ≡ true → PlacedIn ls spec
unfolding place_block place_at block
place_block_lem ls spec h =
    let read = lines-unlines ls h in
    elim (Option-cases (split_at_stack spec.stack ls)) [
      | inl e ↦ (
        ls,
        [],
        append-nil ls,
        split_at_stack-none spec.stack ls e,
        ap (λ o. (place_at (unlines ls) spec o).0) (ap (split_at_stack spec.stack) read ∙ e)
            ∙ ap (λ t. t ++ block spec) (terminated-unlines ls)
            ∙ sym (unlines-append ls (block_lines spec))
            ∙ ap unlines (sym (append-nil (ls ++ block_lines spec))),
      )
      | inr ((before, after), e) ↦
          let (parts, first) = split_at_stack_lem spec.stack ls before after e in
          (
            before,
            after,
            parts,
            first,
            ap (λ o. (place_at (unlines ls) spec o).0) (ap (split_at_stack spec.stack) read ∙ e)
                ∙ ap (λ t. t ++ unlines after) (sym (unlines-append before (block_lines spec)))
                ∙ sym (unlines-append (before ++ block_lines spec) after),
          )
    ]
