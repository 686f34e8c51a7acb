-- ===== src/Bot/Command.antt =====
-- How the bot reads the command that links an account.
use eq_site_cms_vk_service.Text.{Text, Unicode, casefold}
use eq_site_cms_vk_service.Text.Laws.{IsSpaces, IsSolid}
use eq_site_cms_vk_service.Text.Words.{EndsWord, split-strip, split-first}
use eq_site_cms_vk_service.Text.Laws.{text_eq_refl}
use eq_site_cms_vk_service.Bot.Base.{parse_link_command}
use eq_site_cms_vk_service.Shared.{ℕ, [], ◌∷◌, ◌++◌, ◌≡◌, ◌≢◌, refl, some}

module _ (u : Unicode) where
  -- A code, written after the link command in whatever case, is read back: with any whitespace before,
  -- between and after them, and with anything after the whitespace that ends the code.
  pub parse_link_command-typed :
      (link_command before typed : Text) (s : ℕ) (spaces code rest : Text)
      → casefold u typed ≡ casefold u link_command
      → typed ≢ []
      → code ≢ []
      → IsSolid u typed
      → IsSolid u code
      → IsSpaces u before
      → IsSpaces u (s ∷ spaces)
      → EndsWord u rest
      → parse_link_command u (before ++ (typed ++ ((s ∷ spaces) ++ (code ++ rest)))) link_command
        ≡ some code
  unfolding parse_link_command
  parse_link_command-typed link_command before typed s spaces code rest same nt nc ht hc hb hs hr =
      rw
        (
          split-strip u (before ++ (typed ++ ((s ∷ spaces) ++ (code ++ rest)))),
          split-first u before typed ((s ∷ spaces) ++ (code ++ rest)) nt hb ht hs.0,
          split-first u (s ∷ spaces) code rest nc hs hc hr,
          same,
          text_eq_refl (casefold u link_command),
        )
        refl
