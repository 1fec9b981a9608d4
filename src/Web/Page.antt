-- ===== src/Web/Page.antt =====
-- renderPage of src/web/page.ts, line by line.
use kisauth.Base.{ℕ, String, Option, none, some, List, [], ◌∷◌, ◌==◌, if◌then◌else◌}
use kisauth.Base.Texts.{◌++◌}
use Prim.Native.Char.{code}
use kisauth.Js.{Js}
use kisauth.Web.Escape.{escape_html}
use kisauth.Web.Style.{concat, style}

pub data Tone : Type 0 where
  success error neutral : Tone

pub record ReturnTo : Type 0 where
  pub url : String
  pub label : String
  pub delay_seconds : Option ℕ

pub record PageOptions : Type 0 where
  pub title : String
  pub heading : String
  pub message : String
  pub tone : Tone
  pub return_to : Option ReturnTo

abbrev pub tone_text : Tone → String
tone_text success = "success"
tone_text error = "error"
tone_text neutral = "neutral"

-- ICONS
unfoldable pub icons : Tone → String
unfolding concat
icons success = concat (
    "<svg width=\"40\" height=\"40\" viewBox=\"0 0 24 24\" fill=\"none\" aria-hidden=\"true\">"
    ∷ "<circle cx=\"12\" cy=\"12\" r=\"11\" stroke=\"currentColor\" stroke-width=\"1.5\"/>"
    ∷ "<path d=\"M7.5 12.5l3 3 6-6.5\" stroke=\"currentColor\" stroke-width=\"1.75\" stroke-linecap=\"round\" stroke-linejoin=\"round\"/>"
    ∷ "</svg>" ∷ [])
icons error = concat (
    "<svg width=\"40\" height=\"40\" viewBox=\"0 0 24 24\" fill=\"none\" aria-hidden=\"true\">"
    ∷ "<circle cx=\"12\" cy=\"12\" r=\"11\" stroke=\"currentColor\" stroke-width=\"1.5\"/>"
    ∷ "<path d=\"M12 7v6\" stroke=\"currentColor\" stroke-width=\"1.75\" stroke-linecap=\"round\"/>"
    ∷ "<circle cx=\"12\" cy=\"16.25\" r=\"1\" fill=\"currentColor\"/>" ∷ "</svg>" ∷ [])
icons neutral = concat (
    "<svg width=\"40\" height=\"40\" viewBox=\"0 0 24 24\" fill=\"none\" aria-hidden=\"true\">"
    ∷ "<circle cx=\"12\" cy=\"12\" r=\"11\" stroke=\"currentColor\" stroke-width=\"1.5\"/>"
    ∷ "<path d=\"M12 8v4.5l3 2\" stroke=\"currentColor\" stroke-width=\"1.75\" stroke-linecap=\"round\" stroke-linejoin=\"round\"/>"
    ∷ "</svg>" ∷ [])

-- `opts.returnTo?.delaySeconds ?? 2`
abbrev pub or_two : Option ℕ → ℕ
or_two none = 2
or_two (some n) = n

abbrev pub refresh_parts : Js → ReturnTo → List String
refresh_parts js return_to =
    "<meta http-equiv=\"refresh\" content=\""
    ∷ js.print_nat (or_two return_to.delay_seconds)
    ∷ ";url="
    ∷ escape_html return_to.url
    ∷ "\">"
    ∷ []

-- `refreshMeta`
unfoldable pub refresh_meta : Js → Option ReturnTo → String
unfolding concat
refresh_meta js none = ""
refresh_meta js (some return_to) = concat (refresh_parts js return_to)

abbrev pub button_parts : ReturnTo → List String
button_parts return_to =
    "<a class=\"btn\" href=\""
    ∷ escape_html return_to.url
    ∷ "\">"
    ∷ escape_html return_to.label
    ∷ "</a>\n    <p class=\"hint\">Returning you to KIS automatically…</p>"
    ∷ []

-- The link of the last part of the page.
unfoldable pub return_button : Option ReturnTo → String
unfolding concat
return_button none = ""
return_button (some return_to) = concat (button_parts return_to)

-- `baseUrl.replace(/\/$/, '')`
unfoldable pub strip_slash : String → String
strip_slash String.[] = ""
strip_slash (String.◌∷◌ x String.[]) = if code x == b'/' then "" else String.◌∷◌ x ""
strip_slash (String.◌∷◌ x (String.◌∷◌ y s)) = String.◌∷◌ x (strip_slash (String.◌∷◌ y s))

abbrev pub og_image : String → String
og_image site_url = site_url ++ "/brand/og-image.jpg"

abbrev pub page_url : String → String
page_url site_url = site_url ++ "/status"

-- The lines before the style sheet.
abbrev pub head_lines : Js → (site_url : String) → PageOptions → List String
head_lines js site_url opts =
    "<!doctype html>\n<html lang=\"en\">\n<head>\n<meta charset=\"utf-8\">\n"
    ∷ "<meta name=\"viewport\" content=\"width=device-width, initial-scale=1\">\n"
    ∷ "<meta name=\"robots\" content=\"noindex, nofollow\">\n"
    ∷ refresh_meta js opts.return_to
    ∷ "\n<title>"
    ∷ escape_html opts.title
    ∷ " · KIS Auth</title>\n<link rel=\"icon\" type=\"image/png\" sizes=\"32x32\" href=\"/brand/icon-32.png\">\n"
    ∷ "<link rel=\"apple-touch-icon\" sizes=\"180x180\" href=\"/brand/icon-180.png\">\n"
    ∷ "<link rel=\"icon\" type=\"image/png\" sizes=\"512x512\" href=\"/brand/icon-512.png\">\n"
    ∷ "<meta property=\"og:type\" content=\"website\">\n<meta property=\"og:site_name\" content=\"KIS Auth\">\n"
    ∷ "<meta property=\"og:title\" content=\""
    ∷ escape_html opts.heading
    ∷ "\">\n<meta property=\"og:description\" content=\""
    ∷ escape_html opts.message
    ∷ "\">\n<meta property=\"og:image\" content=\""
    ∷ og_image site_url
    ∷ "\">\n<meta property=\"og:url\" content=\""
    ∷ page_url site_url
    ∷ "\">\n<meta name=\"twitter:card\" content=\"summary\">\n<meta name=\"twitter:title\" content=\""
    ∷ escape_html opts.heading
    ∷ "\">\n<meta name=\"twitter:description\" content=\""
    ∷ escape_html opts.message
    ∷ "\">\n<meta name=\"twitter:image\" content=\""
    ∷ og_image site_url
    ∷ "\">\n"
    ∷ []

-- The lines behind it.
abbrev pub body_lines : PageOptions → List String
body_lines opts =
    "</head>\n<body>\n  <main class=\"card\" role=\"main\">\n    <div class=\"brand\"><img src=\"/brand/icon-180.png\" alt=\"\" width=\"22\" height=\"22\">KIS Auth</div>\n"
    ∷ "    <div class=\"icon "
    ∷ tone_text opts.tone
    ∷ "\">"
    ∷ icons opts.tone
    ∷ "</div>\n    <h1>"
    ∷ escape_html opts.heading
    ∷ "</h1>\n    <p class=\"message\">"
    ∷ escape_html opts.message
    ∷ "</p>\n"
    ∷ "    "
    ∷ return_button opts.return_to
    ∷ "\n  </main>\n</body>\n"
    ∷ "</html>"
    ∷ []

unfoldable pub render_page : Js → (base_url : String) → PageOptions → String
render_page js base_url opts =
    concat (head_lines js (strip_slash base_url) opts) ++ (style ++ concat (body_lines opts))
