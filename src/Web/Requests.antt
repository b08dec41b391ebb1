-- ===== src/Web/Requests.antt =====
-- internal/web/control.go: the checks on where a request comes from and on its body. Parsing of URLs
-- and of JSON is library code, and an argument.
use freeway_pi.Base.{
  ◌≡◌, refl, inl, inr, Bool, true, false, not, ◌&&◌, ◌||◌, Option, none, some, arith, Bool-cases,
  take, Result, ◌>>◌, fail_if, ok, err,
}
use freeway_pi.Base.Texts.{Text, codes, same_text, is_empty, cut}
use freeway_pi.Net.Helper.{trim_space}

-- A header that is not sent is empty; the session is the cookie's value.
pub record Request : Type 0 where
  pub method : Text
  pub path : Text
  pub host : Text
  pub fetch_site : Text
  pub origin : Text
  pub content_type : Text
  pub body : Text
  pub index : Text
  pub session : Option Text

pub data Refusal : Type 0 where
  cross_site : Refusal
  content_type : Refusal
  unreadable : Refusal

unfoldable pub is_own_site : Text → Bool
is_own_site t =
    same_text t (codes "same-origin")
    || (same_text t (codes "same-site") || (same_text t (codes "none") || is_empty t))

-- The host of the origin is the host that was asked.
unfoldable pub same_host : (host : Text) → Option Text → Bool
same_host host none = false
same_host host (some h) = same_text h host

unfoldable pub same_site : (url_host : Text → Option Text) → Request → Result Refusal (Unit {0})
same_site url_host r = do
  fail_if (not (is_own_site r.fetch_site)) cross_site
  fail_if (not (is_empty r.origin) && not (same_host r.host (url_host r.origin))) cross_site

unfoldable pub before_semicolon : Text → Option (Text × Text) → Text
before_semicolon t none = t
before_semicolon t (some (before, after)) = before

unfoldable pub is_json : Text → Bool
is_json t = same_text (trim_space (before_semicolon t (cut 59 t))) (codes "application/json")

unfoldable pub read_body : {A : Type 0} → Option A → Result Refusal A
read_body none = err unreadable
read_body (some a) = ok a

-- `decodeBody`: at most 4096 bytes of the body are read.
unfoldable pub decode_body :
    {A : Type 0} → (url_host : Text → Option Text) → (Text → Option A) → Request → Result Refusal A
decode_body url_host parse r = do
  same_site url_host r
  fail_if (not (is_json r.content_type)) content_type
  read_body (parse (take 4096 r.body))

-- A request that a browser says comes from another site, or whose origin has another host.
unfoldable pub is_foreign : (url_host : Text → Option Text) → Request → Bool
is_foreign url_host r =
    not (is_own_site r.fetch_site)
    || (not (is_empty r.origin) && not (same_host r.host (url_host r.origin)))

pub same_site-foreign :
    (url_host : Text → Option Text) (r : Request)
    → is_foreign url_host r ≡ true
    → same_site url_host r ≡ err cross_site
unfolding same_site is_foreign
same_site-foreign url_host r h = elim (Bool-cases (is_own_site r.fetch_site)) [
  | inr away ↦ simp (away) refl
  | inl own ↦
      let other : (not (is_empty r.origin) && not (same_host r.host (url_host r.origin))) ≡ true =
        ground (arith, h, own) in
      simp (own, other) refl
]

pub decode_body-foreign :
    {A : Type 0} (url_host : Text → Option Text) (parse : Text → Option A) (r : Request)
    → is_foreign url_host r ≡ true
    → decode_body url_host parse r ≡ err cross_site
unfolding decode_body
decode_body-foreign url_host parse r h = rw (same_site-foreign url_host r h) refl
