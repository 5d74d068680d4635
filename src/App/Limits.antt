-- ===== src/App/Limits.antt =====
-- What the bounds of the configuration give the services and the store: limiters that work, and text limits that
-- are those of the table's constraints.
use mathlib.Core.List.{reverse, reverse-reverse}
use portfolio_backend.Base.{ℕ, ◌≡◌, ◌≤◌, ◌+◌, refl, [], ◌∷◌, true, false, any, ◌==◌, arith}
use portfolio_backend.Base.Int.{ℤ}
use portfolio_backend.Base.Text.{Text, text_eq, text_eq_refl}
use portfolio_backend.Base.Utf8.{runes, runes_after, rune_count, trim_space}
use portfolio_backend.Base.Utf8.Blanks.{NoBlankFirst, trim_space-NoBlankFirst}
use portfolio_backend.Errors.{ok}
use portfolio_backend.Limiter.{Instant, misconfigured}
use portfolio_backend.Database.{Db}
use portfolio_backend.Comments.Store.{
  CreateInput, skip_blanks, btrim, storable, text_check, comment_checks, new_comment,
  insert_comment,
}
use portfolio_backend.Comments.Service.{valid_text, trimmed}
use portfolio_backend.Config.{Config}
use portfolio_backend.Config.Env.{loaded, Library}
use portfolio_backend.Config.Load.{load}
use portfolio_backend.Config.Bounds.{Within}
use portfolio_backend.Config.Validity.{load-IsValid}
use portfolio_backend.App.Wiring.{comment_limits, comment_limiter, view_limiter, like_limiter}

skip_blanks-NoBlankFirst : (s : Text) → NoBlankFirst s → skip_blanks s ≡ s
unfolding skip_blanks
skip_blanks-NoBlankFirst [] h = refl
skip_blanks-NoBlankFirst (b ∷ bs) h = rw h

-- What Go trims, PostgreSQL finds trimmed.
btrim-trim_space : (s : Text) → btrim (trim_space s) ≡ trim_space s
unfolding btrim
btrim-trim_space s =
    let h = trim_space-NoBlankFirst s in
    rw (
      skip_blanks-NoBlankFirst (trim_space s) (h.0),
      skip_blanks-NoBlankFirst (reverse (trim_space s)) (h.1),
      reverse-reverse,
    )

-- A text with no zero byte.
abbrev pub NoZero : Text → Type 0
NoZero s = any (λ b. b == 0) s ≡ false

rune_count-pos : (b : ℕ) (bs : Text) → 1 ≤ rune_count (b ∷ bs)
unfolding rune_count runes runes_after
rune_count-pos b bs = omega arith

not_empty-rune_count : (t : Text) → text_eq t [] ≡ false → 1 ≤ rune_count t
not_empty-rune_count [] h = unfold text_eq in cc
not_empty-rune_count (b ∷ bs) h = rune_count-pos b bs

-- A text that the service accepts within a limit of the column's, and that has no zero byte, passes the column's CHECK.
valid_text-text_check :
    (s : Text) (limit : ℤ) (maximum : ℕ)
    → Within maximum limit
    → valid_text (trim_space s) limit ≡ true
    → NoZero (trim_space s)
    → text_check maximum (trim_space s) ≡ true
unfolding valid_text text_check storable
valid_text-text_check s limit maximum within valid clean = rw (btrim-trim_space s) (
    ground (
      arith,
      text_eq_refl (trim_space s),
      not_empty-rune_count (trim_space s),
      within,
      valid,
      clean,
    ))

module _ {Prefix : Type 0} (lib : Library Prefix) {c : Config Prefix}
    (e : load lib ≡ loaded c) where
  -- With a configuration that Load returns, no limiter is misconfigured.
  pub limiters-configured :
      (misconfigured (comment_limiter c) ≡ false)
      × (misconfigured (view_limiter c) ≡ false)
      × (misconfigured (like_limiter c) ≡ false)
  unfolding misconfigured
  limiters-configured =
      let r = (load-IsValid lib e).rates in (ground arith, ground arith, ground arith)

  -- With a configuration that Load returns, a comment whose trimmed name and text the service finds valid, and
  -- have no zero byte, meets the CHECK constraints of the table: they let its row in.
  pub insert_comment-trimmed :
      (input : CreateInput) (now : Instant) (db : Db)
      → valid_text (trim_space input.author_name) (comment_limits c).max_author_chars ≡ true
      → valid_text (trim_space input.body) (comment_limits c).max_comment_chars ≡ true
      → NoZero (trim_space input.author_name)
      → NoZero (trim_space input.body)
      → let row = new_comment (trimmed input) now db in
        insert_comment (trimmed input) now db
        ≡ ok (
          row,
          record db { comments = row ∷ db.comments; next_comment_id = db.next_comment_id + 1 },
        )
  unfolding insert_comment comment_checks
  insert_comment-trimmed input now db author body author_clean body_clean =
      let v = load-IsValid lib e in
      rw (
        valid_text-text_check input.author_name c.comments.max_author_chars 80 (v.comments.author)
            author author_clean,
        valid_text-text_check input.body c.comments.max_comment_chars 2000 (v.comments.comment) body
            body_clean,
      )
