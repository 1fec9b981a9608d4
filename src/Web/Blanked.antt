-- ===== src/Web/Blanked.antt =====
-- The texts that src/web/page.ts puts in a page add no markup to it.
use kisauth.Base.{ℕ, true, String, Option, none, some, List, [], ◌∷◌, ◌≡◌, refl, sym, ◌∙◌, arith}
use kisauth.Base.Texts.{◌++◌}
use kisauth.Js.{Js}
use kisauth.Web.Escape.{escape_html}
use kisauth.Web.Marks.{is_mark, occurrences, occurrences-append, occurrences-escape_html}
use kisauth.Web.Style.{concat, style}
use kisauth.Web.Page.{
  ReturnTo, PageOptions, refresh_parts, button_parts, refresh_meta, return_button, strip_slash,
  head_lines, body_lines, render_page,
}

abbrev blanked : ReturnTo → ReturnTo
blanked r = record r { url = ""; label = "" }

abbrev blank_link : Option ReturnTo → Option ReturnTo
blank_link none = none
blank_link (some r) = some (blanked r)

-- The page with no text of its own, and the same icon.
abbrev pub blank : PageOptions → PageOptions
blank opts = record opts {
  title = "";
  heading = "";
  message = "";
  return_to = blank_link opts.return_to;
}

module _ (c : ℕ) (mark : is_mark c ≡ true) where
  -- The character stands as often in one text as in the other.
  abbrev Same : String → String → Type 0
  Same s t = occurrences c s ≡ occurrences c t

  -- Line by line.
  abbrev AllSame : List String → List String → Type 0
  AllSame [] [] = Unit
  AllSame (s ∷ ss) (t ∷ ts) = Same s t × AllSame ss ts
  AllSame _ _ = ⊥

  append-Same : (s t s' t' : String) → Same s t → Same s' t' → Same (s ++ s') (t ++ t')
  append-Same s t s' t' h h' = omega (arith, occurrences-append c s s', occurrences-append c t t')

  concat-Same : (ss ts : List String) → AllSame ss ts → Same (concat ss) (concat ts)
  unfolding concat
  concat-Same [] [] h = refl
  concat-Same [] (t ∷ ts) h = absurd h
  concat-Same (s ∷ ss) [] h = absurd h
  concat-Same (s ∷ ss) (t ∷ ts) h =
      append-Same s t (concat ss) (concat ts) h.0 (concat-Same ss ts h.1)

  escaped-Same : (s t : String) → Same (escape_html s) (escape_html t)
  escaped-Same s t = occurrences-escape_html c s mark ∙ sym (occurrences-escape_html c t mark)

  refresh_meta-Same :
      (js : Js) (link : Option ReturnTo)
      → Same (refresh_meta js link) (refresh_meta js (blank_link link))
  unfolding refresh_meta
  refresh_meta-Same js none = refl
  refresh_meta-Same js (some r) =
      concat-Same (refresh_parts js r) (refresh_parts js (blanked r))
        (refl, (refl, (refl, (escaped-Same r.url "", (refl, tt)))))

  return_button-Same :
      (link : Option ReturnTo) → Same (return_button link) (return_button (blank_link link))
  unfolding return_button
  return_button-Same none = refl
  return_button-Same (some r) =
      concat-Same (button_parts r) (button_parts (blanked r))
        (refl, (escaped-Same r.url "", (refl, (escaped-Same r.label "", (refl, tt)))))

  head_lines-AllSame :
      (js : Js) (site_url : String) (opts : PageOptions)
      → AllSame (head_lines js site_url opts) (head_lines js site_url (blank opts))
  head_lines-AllSame js site_url opts = (
    refl,
    (
      refl,
      (
        refl,
        (
          refresh_meta-Same js opts.return_to,
          (
            refl,
            (
              escaped-Same opts.title "",
              (
                refl,
                (
                  refl,
                  (
                    refl,
                    (
                      refl,
                      (
                        refl,
                        (
                          escaped-Same opts.heading "",
                          (
                            refl,
                            (
                              escaped-Same opts.message "",
                              (
                                refl,
                                (
                                  refl,
                                  (
                                    refl,
                                    (
                                      refl,
                                      (
                                        refl,
                                        (
                                          escaped-Same opts.heading "",
                                          (
                                            refl,
                                            (
                                              escaped-Same opts.message "",
                                              (refl, (refl, (refl, tt))),
                                            ),
                                          ),
                                        ),
                                      ),
                                    ),
                                  ),
                                ),
                              ),
                            ),
                          ),
                        ),
                      ),
                    ),
                  ),
                ),
              ),
            ),
          ),
        ),
      ),
    ),
  )

  body_lines-AllSame : (opts : PageOptions) → AllSame (body_lines opts) (body_lines (blank opts))
  body_lines-AllSame opts = (
    refl,
    (
      refl,
      (
        refl,
        (
          refl,
          (
            refl,
            (
              refl,
              (
                escaped-Same opts.heading "",
                (
                  refl,
                  (
                    escaped-Same opts.message "",
                    (refl, (refl, (return_button-Same opts.return_to, (refl, (refl, tt))))),
                  ),
                ),
              ),
            ),
          ),
        ),
      ),
    ),
  )

  -- Each of the characters < > " ' stands in a page exactly as often as in the page whose title,
  -- heading, message, address and label are empty: whatever these texts are, no tag and no end of an
  -- attribute comes from them.
  pub render_page_marks :
      (js : Js) (base_url : String) (opts : PageOptions)
      → Same (render_page js base_url opts) (render_page js base_url (blank opts))
  unfolding render_page
  render_page_marks js base_url opts =
      let site_url = strip_slash base_url in
      append-Same (concat (head_lines js site_url opts))
        (concat (head_lines js site_url (blank opts))) (style ++ concat (body_lines opts))
        (style ++ concat (body_lines (blank opts)))
        (concat-Same (head_lines js site_url opts) (head_lines js site_url (blank opts))
          (head_lines-AllSame js site_url opts))
        (append-Same style style (concat (body_lines opts)) (concat (body_lines (blank opts))) refl
          (concat-Same (body_lines opts) (body_lines (blank opts)) (body_lines-AllSame opts)))
