-- ===== src/Scripts/Chrome.antt =====
-- scripts/chrome.ts: where a Chrome is looked for. The environment and the file system are
-- parameters: a variable's value, whether a path exists, and the names in a directory.
use moltenpour.Prelude.{
  List, [], ◌∷◌, ◌++◌, Option, none, some, Bool, true, false, ltb, ◌==◌, ◌||◌, ◌&&◌, if◌then◌else◌,
}
use moltenpour.Text.{Text, codes}

-- The order of `sort`: by code units.
unfoldable pub text_before : Text → Text → Bool
text_before s [] = false
text_before [] (d ∷ t) = true
text_before (c ∷ s) (d ∷ t) = ltb c d || (c == d && text_before s t)

unfoldable pub insert_text : Text → List Text → List Text
insert_text s [] = s ∷ []
insert_text s (t ∷ ts) = if text_before t s then t ∷ insert_text s ts else s ∷ t ∷ ts

unfoldable pub sorted_texts : List Text → List Text
sorted_texts [] = []
sorted_texts (s ∷ ss) = insert_text s (sorted_texts ss)

-- `reverse`, in front of `acc`.
unfoldable pub reversed_onto : List Text → List Text → List Text
reversed_onto acc [] = acc
reversed_onto acc (s ∷ ss) = reversed_onto (s ∷ acc) ss

-- `process.env.X`, where the empty text counts as absent.
unfoldable pub set_value : Option Text → Option Text
set_value none = none
set_value (some []) = none
set_value (some (c ∷ s)) = some (c ∷ s)

abbrev or_else {ℓ} : {A : Type ℓ} → Option A → Option A → Option A
or_else none other = other
or_else (some a) other = some a

unfoldable pub first_existing : (Text → Bool) → List Text → Option Text
first_existing exists [] = none
first_existing exists (p ∷ ps) = if exists p then some p else first_existing exists ps

unfoldable pub cached_paths : Text → List Text → List Text
cached_paths base [] = []
cached_paths base (v ∷ vs) =
    (base ++ codes "/" ++ v ++ codes "/chrome-linux64/chrome") ∷ cached_paths base vs

unfoldable pub cache_base : Text → Text
cache_base home = home ++ codes "/.cache/puppeteer/chrome"

unfoldable pub system_paths : List Text
system_paths = codes "/usr/bin/google-chrome" ∷ codes "/usr/bin/chromium" ∷ []

-- `findChrome`; none where it throws.
unfoldable pub find_chrome :
    (chrome_path : Option Text) (home : Text) (exists : Text → Bool) (readdir : Text → List Text)
    → Option Text
find_chrome chrome_path home exists readdir =
    let base = cache_base home in
    let versions = reversed_onto [] (sorted_texts (readdir base)) in
    let cached = if exists base then first_existing exists (cached_paths base versions) else none in
    or_else (set_value chrome_path) (or_else cached (first_existing exists system_paths))
