-- ===== src/Pointer/Fetch.antt =====
-- The download of a pointer document over HTTP (fetchHTTP of internal/pointer/fetch.go).
use pxc_anonymizer.Prelude.{
  ℕ, ◌*◌, ◌^◌, ◌-◌, zero, suc, String, Bool, true, false, ◌||◌, ◌==◌, text_eq, nat_eq, ◌≡◌, refl,
  Option, none, some, leb, if◌then◌else◌,
}
use pxc_anonymizer.Prelude.Int.{ℤ, pos, negsuc, ◌+ℤ◌, ltb_ℤ}
use pxc_anonymizer.Errors.{plain, Result, ok, err}
use pxc_anonymizer.Sql.{Io, ◌>>=◌, ◌>>◌, fail, lift, Yields, after-Yields, if-Yields, IsGood}
use pxc_anonymizer.Pointer.{
  Document, Url, Wire, parse_url, is_some, validate, decode, decoded, unversioned, if_valid,
}

-- `HTTPPointerSource`; the timeout is in nanoseconds.
pub record HttpSource : Type 0 where
  pub url : String
  pub allow_insecure : Bool
  pub ca_secret : Option (String × String)
  pub timeout : Option ℤ
  pub max_bytes : ℤ

-- What is asked of the HTTP client and of the transport: a request follows redirects as its check allows,
-- the check being given how many requests there were and the next URL; `read` reads a body up to a limit.
pub record Client (C T : Type 0) : Type 0 where
  pub transport : Option (String × String) → Io C (Unit {0})
  pub get : Url → ℤ → (ℕ → String → Result (Unit {0})) → Io C ℕ  -- the status
  pub read : ℤ → Io C T
  pub size : T → ℕ

abbrev pub default_timeout : ℤ
default_timeout = pos (30 * 1000000000)

abbrev pub max_json_bytes : ℤ
max_json_bytes = pos 65536

abbrev pub timeout_of : Option ℤ → ℤ
timeout_of none = default_timeout
timeout_of (some t) = t

abbrev pub limit_of : ℤ → ℤ
limit_of (pos zero) = max_json_bytes
limit_of (pos (suc n)) = pos (suc n)
limit_of (negsuc n) = negsuc n

-- The largest int64 leaves no room for the byte that shows an overflow.
abbrev pub is_bad_limit : ℤ → Bool
is_bad_limit (pos n) = n == 0 || n == 2 ^ 63 - 1
is_bad_limit (negsuc n) = true

module _ {C X T : Type 0} (W : Wire X T) (H : Client C T) where
  abbrev pub checked_url : Option Url → Result Url
  checked_url none = err (plain "invalid URL")
  checked_url (some u) = ok u

  -- `CheckRedirect`.
  abbrev pub check_redirect : Bool → ℕ → String → Result (Unit {0})
  check_redirect insecure requests url =
      if leb 10 requests
      then err (plain "too many pointer redirects")
      else if is_some (parse_url insecure (W.parse url))
      then ok tt
      else err (plain "invalid URL")

  abbrev pub read_document : ℤ → Io C (Document X)
  read_document limit = do
    body ← H.read (limit +ℤ pos 1)
    if ltb_ℤ limit (pos (H.size body))
        then fail (plain "HTTP pointer exceeds maxBytes")
        else lift (decode W body)

  abbrev pub answered : ℤ → ℕ → Io C (Document X)
  answered limit status =
      if status == 404
      then fail (plain "not found")
      else if status == 200
      then read_document limit
      else fail (plain "fetch HTTP pointer: status")

  abbrev pub request : Url → HttpSource → Io C (Document X)
  request u source = do
    H.transport source.ca_secret
    status ← H.get u (timeout_of source.timeout) (check_redirect source.allow_insecure)
    answered (limit_of source.max_bytes) status

  -- `fetchHTTP`.
  unfoldable pub fetch_http : HttpSource → Io C (Document X)
  fetch_http source = do
    u ← lift (checked_url (parse_url source.allow_insecure (W.parse source.url)))
    if ltb_ℤ (timeout_of source.timeout) (pos 1)
        then fail (plain "HTTP pointer timeout must be positive")
        else if is_bad_limit (limit_of source.max_bytes)
        then fail
            (plain "HTTP pointer maxBytes must be positive and leave room for an overflow byte")
        else request u source

  -- A document that comes from a text within the limit, and is valid.
  abbrev pub IsFetched : ℤ → Document X → Type 0
  IsFetched limit d =
      (validate W d ≡ ok tt)
      × ((body : T) × (W.unmarshal (unversioned W) body ≡ some d)
          × (ltb_ℤ limit (pos (H.size body)) ≡ false))

  if_valid-IsFetched :
      (limit : ℤ) (body : T) (d : Document X) (r : Result (Unit {0}))
      → W.unmarshal (unversioned W) body ≡ some d
      → ltb_ℤ limit (pos (H.size body)) ≡ false
      → validate W d ≡ r
      → IsGood (IsFetched limit) (if_valid W d r)
  if_valid-IsFetched limit body d (ok u) h small valid = (valid, (body, h, small))
  if_valid-IsFetched limit body d (err e) h small valid = tt

  decoded-IsFetched :
      (limit : ℤ) (body : T) (o : Option (Document X))
      → W.unmarshal (unversioned W) body ≡ o
      → ltb_ℤ limit (pos (H.size body)) ≡ false
      → IsGood (IsFetched limit) (decoded W o)
  decoded-IsFetched limit body none h small = tt
  decoded-IsFetched limit body (some d) h small =
      if_valid-IsFetched limit body d (validate W d) h small refl

  read_document-IsFetched : (limit : ℤ) (c : C) → Yields (IsFetched limit) (read_document limit c)
  unfolding decode
  read_document-IsFetched limit c =
      after-Yields (IsFetched limit) (H.read (limit +ℤ pos 1) c) _ (λ body d.
        if-Yields (IsFetched limit) (ltb_ℤ limit (pos (H.size body))) _ _ d (λ large. tt)
          (λ small. decoded-IsFetched limit body (W.unmarshal (unversioned W) body) refl small))

  answered-IsFetched :
      (limit : ℤ) (status : ℕ) (c : C) → Yields (IsFetched limit) (answered limit status c)
  answered-IsFetched limit status c =
      if-Yields (IsFetched limit) (status == 404) _ _ c (λ missing. tt)
        (λ found.
          if-Yields (IsFetched limit) (status == 200) _ _ c
            (λ good. read_document-IsFetched limit c) (λ bad. tt))

  -- Whatever the server answers, a document that is fetched over HTTP is valid, and is what JSON reads
  -- from a body that is not larger than the source's limit, 65536 bytes where it has none.
  pub fetch_http-IsFetched :
      (source : HttpSource) (c : C)
      → Yields (IsFetched (limit_of source.max_bytes)) (fetch_http source c)
  unfolding fetch_http
  fetch_http-IsFetched source c =
      after-Yields P (lift (checked_url (parse_url source.allow_insecure (W.parse source.url))) c) _
        (λ u d.
          if-Yields P (ltb_ℤ (timeout_of source.timeout) (pos 1)) _ _ d (λ bad. tt)
            (λ good.
              if-Yields P (is_bad_limit limit) _ _ d (λ bad. tt)
                (λ fine. after-Yields P (H.transport source.ca_secret d) _ (λ t e.
                  after-Yields P
                    (H.get u (timeout_of source.timeout) (check_redirect source.allow_insecure) e) _
                    (λ status f. answered-IsFetched limit status f)))))
    where
      limit : ℤ
      limit = limit_of source.max_bytes

      P : Document X → Type 0
      P = IsFetched limit
