-- ===== src/Web/Style.antt =====
-- The style sheet of src/web/page.ts.
use kisauth.Base.{String, List, [], ◌∷◌}
use kisauth.Base.Texts.{◌++◌}

-- A template text, in pieces.
unfoldable pub concat : List String → String
concat [] = ""
concat (t ∷ ts) = t ++ concat ts

unfoldable pub style : String
unfolding concat
style = concat (
    "<style>\n  :root {\n    --bg: #12100b;\n    --card: #1b1812;\n    --border: #33291a;\n"
    ∷ "    --ink: #f4efe4;\n    --ink-soft: #b8ac93;\n    --gold: #d4af6a;\n"
    ∷ "    --gold-ink: #12100b;\n    --success: #7fb88a;\n    --error: #e0796f;\n"
    ∷ "  }\n  * { box-sizing: border-box; }\n  body {\n    margin: 0;\n    min-height: 100vh;\n"
    ∷ "    display: flex;\n    align-items: center;\n    justify-content: center;\n"
    ∷ "    padding: 1.5rem;\n    background: radial-gradient(circle at 50% 0%, #1d1912 0%, var(--bg) 60%);\n"
    ∷ "    color: var(--ink);\n    font-family: -apple-system, BlinkMacSystemFont, \"Segoe UI\", Roboto, Helvetica, Arial, sans-serif;\n"
    ∷ "  }\n  .card {\n    width: 100%;\n    max-width: 380px;\n    background: var(--card);\n"
    ∷ "    border: 1px solid var(--border);\n    border-radius: 16px;\n"
    ∷ "    padding: 2.25rem 1.75rem;\n    text-align: center;\n  }\n  .brand {\n"
    ∷ "    display: flex;\n    align-items: center;\n    justify-content: center;\n"
    ∷ "    gap: 0.5rem;\n    font-size: 0.72rem;\n    letter-spacing: 0.16em;\n"
    ∷ "    text-transform: uppercase;\n    color: var(--gold);\n    font-weight: 600;\n"
    ∷ "    margin-bottom: 1.5rem;\n  }\n  .brand img {\n    width: 22px;\n"
    ∷ "    height: 22px;\n    border-radius: 6px;\n  }\n  .icon {\n    display: inline-flex;\n"
    ∷ "    align-items: center;\n    justify-content: center;\n    width: 64px;\n"
    ∷ "    height: 64px;\n    border-radius: 50%;\n    margin-bottom: 1.25rem;\n"
    ∷ "  }\n  .icon.success { background: rgba(127, 184, 138, 0.14); color: var(--success); }\n"
    ∷ "  .icon.error { background: rgba(224, 121, 111, 0.14); color: var(--error); }\n"
    ∷ "  .icon.neutral { background: rgba(212, 175, 106, 0.14); color: var(--gold); }\n"
    ∷ "  h1 {\n    font-size: 1.3rem;\n    font-weight: 600;\n    margin: 0 0 0.6rem;\n"
    ∷ "    text-wrap: balance;\n  }\n  p.message {\n    color: var(--ink-soft);\n"
    ∷ "    font-size: 0.95rem;\n    line-height: 1.55;\n    margin: 0 0 1.75rem;\n"
    ∷ "  }\n  .btn {\n    display: inline-block;\n    width: 100%;\n    padding: 0.85rem 1rem;\n"
    ∷ "    border-radius: 999px;\n    background: var(--gold);\n    color: var(--gold-ink);\n"
    ∷ "    font-weight: 600;\n    font-size: 0.95rem;\n    text-decoration: none;\n"
    ∷ "  }\n  .btn:focus-visible {\n    outline: 2px solid var(--gold);\n"
    ∷ "    outline-offset: 3px;\n  }\n  .hint {\n    margin-top: 1rem;\n"
    ∷ "    font-size: 0.8rem;\n    color: var(--ink-soft);\n  }\n</style>\n" ∷ [])
