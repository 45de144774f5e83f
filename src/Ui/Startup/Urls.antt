-- ===== src/Ui/Startup/Urls.antt =====
-- The URLs of the services: buildWebSocketPath of app/ui.js and its callers.
use docker_baseimage_gui.Prelude.{
  Bool, List, [], ◌∷◌, ◌++◌, ◌≡◌, ◌≢◌, refl, sym, ap, ◌∙◌, append_assoc, append-nil, arith, All,
  drop, if◌then◌else◌,
}
use docker_baseimage_gui.Prelude.Text.{Text, codes}
use docker_baseimage_gui.FileManager.Path.{slashed}
use docker_baseimage_gui.FileManager.Path.Laws.{IsName}
use docker_baseimage_gui.Ui.Settings.{Value, is_truthy}
use docker_baseimage_gui.Ui.Startup.{with_slash, build_web_socket_path, appended, service_url}

with_slash-append : (s t : Text) → t ≢ [] → with_slash (s ++ t) ≡ s ++ with_slash t
unfolding with_slash
with_slash-append [] t h = refl
with_slash-append (c ∷ []) [] h = absurd (h refl)
with_slash-append (c ∷ []) (d ∷ t) h = refl
with_slash-append (c ∷ d ∷ s) t h = ap (c ∷◌) (with_slash-append (d ∷ s) t h)

-- A slash at the end is kept, and none is added.
with_slash-slashed : (s : Text) → with_slash (s ++ (b'/' ∷ [])) ≡ s ++ (b'/' ∷ [])
with_slash-slashed s =
    with_slash-append s (b'/' ∷ []) (λ e. cc) ∙ ap (s ++◌) (unfold with_slash in refl)

with_slash-unslashed : (w : Text) → w ≢ [] → All (λ c. c ≢ b'/') w → with_slash w ≡ w ++ (b'/' ∷ [])
unfolding with_slash
with_slash-unslashed [] h a = absurd (h refl)
with_slash-unslashed (c ∷ []) h a = ground arith
with_slash-unslashed (c ∷ d ∷ s) h a = ap (c ∷◌) (with_slash-unslashed (d ∷ s) (λ e. cc) a.1)

with_slash-names :
    (ws : List Text) → All IsName ws → with_slash (slashed ws) ≡ slashed ws ++ (b'/' ∷ [])
unfolding slashed
with_slash-names [] h = unfold with_slash in refl
with_slash-names (w ∷ []) h =
    ap with_slash (ap (b'/' ∷◌) (append-nil w))
    ∙ with_slash-append (b'/' ∷ []) w h.0.0
    ∙ ap (b'/' ∷◌) (with_slash-unslashed w h.0.0 h.0.1)
    ∙ ap (λ v. b'/' ∷ (v ++ (b'/' ∷ []))) (sym (append-nil w))
with_slash-names (w ∷ v ∷ vs) h =
    with_slash-append (b'/' ∷ w) (slashed (v ∷ vs)) (λ e. cc)
    ∙ ap ((b'/' ∷ w) ++◌) (with_slash-names (v ∷ vs) h.1)
    ∙ ap (b'/' ∷◌) (sym (append_assoc w (slashed (v ∷ vs)) (b'/' ∷ [])))

-- What stands before the path.
abbrev pub origin : Bool → Value → Value → Text
origin encrypt host port =
    let scheme = if encrypt then codes "wss" else codes "ws" in
    let with_host = scheme ++ (codes "://" ++ appended host) in
    if is_truthy port then with_host ++ (codes ":" ++ appended port) else with_host

drop-slashed :
    (ws : List Text) (s : Text)
    → b'/' ∷ (drop 1 (slashed ws ++ (b'/' ∷ [])) ++ s) ≡ slashed ws ++ (b'/' ∷ s)
unfolding slashed
drop-slashed [] s = refl
drop-slashed (w ∷ ws) s = ap (b'/' ∷◌) (append_assoc (w ++ slashed ws) (b'/' ∷ []) s)

url_of_slash :
    (encrypt : Bool) (host port path : Value) (ws : List Text) (pathname : Text)
    → with_slash pathname ≡ slashed ws ++ (b'/' ∷ [])
    → service_url encrypt host port pathname path
      ≡ origin encrypt host port ++ (slashed ws ++ (b'/' ∷ appended path))
unfolding service_url build_web_socket_path
url_of_slash encrypt host port path ws pathname e =
    ap (λ p. origin encrypt host port ++ (b'/' ∷ (drop 1 p ++ appended path))) e
    ∙ ap (origin encrypt host port ++◌) (drop-slashed ws (appended path))

-- Whether or not the path of the page ends with a slash, the URL of a service is the origin followed by
-- the directories of the page and the path of the service, each after one slash.
pub service_url-joined :
    (encrypt : Bool) (host port path : Value) (ws : List Text)
    → All IsName ws
    → let joined = origin encrypt host port ++ (slashed ws ++ (b'/' ∷ appended path)) in
      (service_url encrypt host port (slashed ws) path ≡ joined)
      × (service_url encrypt host port (slashed ws ++ (b'/' ∷ [])) path ≡ joined)
service_url-joined encrypt host port path ws h = (
  url_of_slash encrypt host port path ws (slashed ws) (with_slash-names ws h),
  url_of_slash encrypt host port path ws _ (with_slash-slashed (slashed ws)),
)
