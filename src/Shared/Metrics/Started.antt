-- ===== src/Shared/Metrics/Started.antt =====
-- How often shared/metrics.py starts a server.
use crypto_streaming_lakehou.Base.{
  ◌≡◌, refl, subst, ap, Bool, true, false, Option, List, [], ◌∷◌, ◌++◌, Try, ok, raised, arith,
  if◌then◌else◌,
}
use crypto_streaming_lakehou.Base.Int.{ℤ}
use crypto_streaming_lakehou.Shared.Metrics.{
  Servers, eq_ℤ, has_port, resolve_port, after_start, start_on, start_metrics_server,
}

-- The arguments of one call, and what start_http_server does in it.
pub record StartCall : Type 0 where
  pub port : Option ℤ
  pub env : Option (Try ℤ)
  pub default : ℤ
  pub result : Try (Unit {0})

-- Calls from anywhere in the process, whatever each of them raises
unfoldable pub start_all : List StartCall → Servers → Servers
start_all [] s = s
start_all (c ∷ cs) s = start_all cs (start_metrics_server c.port c.env c.default c.result s).1

abbrev pub IsOnce : List ℤ → Type 0
IsOnce [] = Unit
IsOnce (p ∷ ps) = (has_port p ps ≡ false) × IsOnce ps

-- No port is listened on twice, and the record of the started servers is right.
pub record ListensOnce (s : Servers) : Type 0 where
  pub in_step : s.started ≡ s.listening
  pub once : IsOnce s.listening

eq_ℤ-sym : (a b : ℤ) → eq_ℤ a b ≡ false → eq_ℤ b a ≡ false
eq_ℤ-sym a b h = ground arith

has_port-append :
    (q p : ℤ) (ps : List ℤ)
    → has_port q ps ≡ false
    → eq_ℤ p q ≡ false
    → has_port q (ps ++ p ∷ []) ≡ false
has_port-append q p [] h e = rw e refl
has_port-append q p (r ∷ ps) h e = ground (arith, has_port-append q p ps)

IsOnce-append : (p : ℤ) (ps : List ℤ) → has_port p ps ≡ false → IsOnce ps → IsOnce (ps ++ p ∷ [])
IsOnce-append p [] h o = (refl, tt)
IsOnce-append p (q ∷ ps) h o =
    let (other, rest) = not_first (eq_ℤ q p) (has_port p ps) h in
    (has_port-append q p ps o.0 (eq_ℤ-sym q p other), IsOnce-append p ps rest o.1)
  where
    not_first : (b c : Bool) → (if b then true else c) ≡ false → (b ≡ false) × (c ≡ false)
    not_first true c h = cc
    not_first false c h = (refl, h)

after_start-ListensOnce :
    (p : ℤ) (r : Try (Unit {0})) (s : Servers)
    → has_port p s.started ≡ false
    → ListensOnce s
    → ListensOnce (after_start p r s).1
unfolding after_start
after_start-ListensOnce p (raised e) s new l = l
after_start-ListensOnce p (ok _) s new l = record {
  in_step = ap (λ ps. ps ++ p ∷ []) l.in_step;
  once = IsOnce-append p s.listening (subst (λ ps. has_port p ps ≡ false) l.in_step new) l.once;
}

unless_started :
    (p : ℤ) (r : Try (Unit {0})) (s : Servers) (b : Bool)
    → has_port p s.started ≡ b
    → ListensOnce s
    → ListensOnce (if b then (ok tt, s) else after_start p r s).1
unless_started p r s true e l = l
unless_started p r s false e l = after_start-ListensOnce p r s e l

start_on-ListensOnce :
    (p : Try ℤ) (r : Try (Unit {0})) (s : Servers) → ListensOnce s → ListensOnce (start_on p r s).1
unfolding start_on
start_on-ListensOnce (raised e) r s l = l
start_on-ListensOnce (ok p) r s l = unless_started p r s (has_port p s.started) refl l

-- However often the servers are started, with whatever arguments, and whatever start_http_server
-- raises, no port is listened on twice, and the cache names the ports that are listened on, if this
-- was so before.
pub start_all-ListensOnce :
    (calls : List StartCall) (s : Servers) → ListensOnce s → ListensOnce (start_all calls s)
unfolding start_all start_metrics_server
start_all-ListensOnce [] s l = l
start_all-ListensOnce (c ∷ cs) s l =
    start_all-ListensOnce cs (start_metrics_server c.port c.env c.default c.result s).1
      (start_on-ListensOnce (resolve_port c.port c.env c.default) c.result s l)
