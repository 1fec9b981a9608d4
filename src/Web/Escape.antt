-- ===== src/Web/Escape.antt =====
-- escapeHtml of src/web/page.ts: five passes over the text.
use Prim.Native.Char.{code}
use kisauth.Base.{ℕ, String, ◌==◌, if◌then◌else◌}
use kisauth.Base.Texts.{◌++◌}

-- `value.replace(/c/g, t)`
unfoldable pub replace_all : (c : ℕ) → (t : String) → String → String
replace_all c t String.[] = ""
replace_all c t (String.◌∷◌ x s) = (if code x == c then t else String.◌∷◌ x "") ++ replace_all c t s

unfoldable pub escape_html : String → String
escape_html value = replace_all b'\'' "&#39;" (
    replace_all b'"' "&quot;"
      (replace_all b'>' "&gt;" (replace_all b'<' "&lt;" (replace_all b'&' "&amp;" value))))
