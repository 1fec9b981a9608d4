-- ===== src/Tests/Pages.antt =====
-- The pages on concrete texts.
use kisauth.Base.{String, none, some, ◌≡◌, ◌↔◌, refl, str_eq, any, true}
use kisauth.Web.Escape.{replace_all, escape_html}
use kisauth.Web.Shown.{shown, shown-escape_html}
use kisauth.Web.Marks.{occurrences}
use kisauth.Web.Page.{PageOptions, error, render_page}
use kisauth.Web.Blanked.{blank, render_page_marks}
use kisauth.Web.Status.{inherited, status}
use kisauth.Web.Statuses.{status_fails_iff}
use kisauth.Signing.{given}
use kisauth.Tests.Runtime.{js}

abbrev attack : String
attack = "\"><script>alert('&lt;')</script>"

escaped : escape_html attack ≡ "&quot;&gt;&lt;script&gt;alert(&#39;&amp;lt;&#39;)&lt;/script&gt;"
unfolding escape_html replace_all
escaped = refl

shown-escape_html_example : shown (escape_html attack) ≡ attack
shown-escape_html_example = shown-escape_html attack

abbrev options : PageOptions
options = record {
  title = attack;
  heading = attack;
  message = attack;
  tone = error;
  return_to = some (record { url = attack; label = attack; delay_seconds = none });
}

render_page_marks_example :
    occurrences b'<' (render_page js "https://kisauth/" options)
    ≡ occurrences b'<' (render_page js "https://kisauth/" (blank options))
render_page_marks_example = render_page_marks b'<' refl js "https://kisauth/" options

status_fails_iff_example : (status js "https://kisauth" (some "constructor") none ≡ none) ↔ (
    (name : String) × (given (some "constructor") ≡ some name)
    × (any (str_eq name) inherited ≡ true))
status_fails_iff_example = status_fails_iff js "https://kisauth" (some "constructor") none
