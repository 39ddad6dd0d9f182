-- ===== src/Mcp/Server/Runs.antt =====
-- Sequences of messages to MCPServer of frameworks/mcp-bridge/src/cobalto/mcp/server.py.
use cobalto.Base.{ℕ, ◌≡◌, refl, sym, ◌∙◌, ap, Option, List, [], ◌∷◌}
use cobalto.Mcp.Protocol.{Request, Response, Runtime}
use cobalto.Mcp.Source.{ToolSource}
use cobalto.Mcp.Handlers.{
  Method, tools_list, resources_list, resources_templates_list, prompts_list, Server, dispatch,
  capabilities,
}
use cobalto.Mcp.Server.{Message, handle_message}
use cobalto.Mcp.Server.Steady.{Kept, same-Kept, Kept_trans, bare, handle_message-Steady}

-- The requests that list what the server offers.
pub data IsListing : Method → Type 0 where
  tools : IsListing tools_list
  resources : IsListing resources_list
  templates : IsListing resources_templates_list
  prompts : IsListing prompts_list

cong_cons : {A : Type 0} {x y : A} {l k : List A} → x ≡ y → l ≡ k → x ∷ l ≡ y ∷ k
cong_cons h e = cc

module _ (R : Runtime) (W : Type 0) (T : ToolSource W) where
  -- A sequence of messages, each with what the clock shows of a tool's call, and the answers.
  unfoldable pub handle_all :
      List (ℕ × Message) → Server R W T → W → Server R W T × W × List (Option Response)
  handle_all [] s w = (s, w, [])
  handle_all ((t, m) ∷ ms) s w =
      let (u, v, r) = handle_message R W T m t s w in
      let (s', w', rs) = handle_all ms u v in (s', w', r ∷ rs)

  handle_all-Kept :
      (ms : List (ℕ × Message)) (s : Server R W T) (w : W) → Kept R W T s (handle_all ms s w).0
  unfolding handle_all
  handle_all-Kept [] s w = same-Kept R W T s
  handle_all-Kept ((t, m) ∷ ms) s w =
      let (u, v, r) = handle_message R W T m t s w in
      Kept_trans R W T s u (handle_all ms u v).0 (handle_message-Steady R W T m t s w).0
        (handle_all-Kept ms u v)

  kept_capabilities :
      (s u : Server R W T) → Kept R W T s u → capabilities R W T u ≡ capabilities R W T s
  unfolding capabilities
  kept_capabilities s u k = simp (k.names, k.resources, k.prompts, k.sampling)

  kept_listing :
      (s u : Server R W T) (v : W) (t : ℕ) (q : Request) {m : Method}
      → Kept R W T s u
      → IsListing m
      → (dispatch R W T m t q u v).2 ≡ (dispatch R W T m t q s v).2
  unfolding dispatch
  kept_listing s u v t q k tools = simp (k.tools)
  kept_listing s u v t q k resources = simp (k.resources)
  kept_listing s u v t q k templates = simp (k.resources)
  kept_listing s u v t q k prompts = simp (k.prompts)

  -- After any sequence of messages the server answers each request for a list of tools, resources,
  -- resource templates or prompts as before it, and has the same capabilities.
  pub handle_all-listing :
      (ms : List (ℕ × Message)) (s : Server R W T) (w v : W) (t : ℕ) (q : Request) {m : Method}
      → IsListing m
      → let u = (handle_all ms s w).0 in
        ((dispatch R W T m t q u v).2 ≡ (dispatch R W T m t q s v).2)
        × (capabilities R W T u ≡ capabilities R W T s)
  handle_all-listing ms s w v t q l =
      let u = (handle_all ms s w).0 in
      let k : Kept R W T s u = handle_all-Kept ms s w in
      (kept_listing s u v t q k l, kept_capabilities s u k)

  abbrev Alike :
      Server R W T × W × List (Option Response) → Server R W T × W × List (Option Response) → Type 0
  Alike a b = (a.1 ≡ b.1) × (a.2 ≡ b.2)

  -- The run from a server with the same bare server, world and answer.
  same_afterwards :
      (ms : List (ℕ × Message)) (u u' : Server R W T) (v v' : W)
      → ((x : Server R W T) (y : W) → Alike (handle_all ms x y) (handle_all ms (bare R W T x) y))
      → bare R W T u ≡ bare R W T u'
      → v ≡ v'
      → Alike (handle_all ms u v) (handle_all ms u' v')
  same_afterwards ms u u' v v' ih same worlds =
      let (a, b) = ih u v in
      let (c, d) = ih u' v' in
      let p : ◌≡◌ {A = Server R W T × W × List (Option Response)} (handle_all ms (bare R W T u) v)
          (handle_all ms (bare R W T u') v') =
        ap (λ (x : Server R W T). handle_all ms x v) same
        ∙ ap (λ (y : W). handle_all ms (bare R W T u') y) worlds in
      (a ∙ ap (λ x. x.1) p ∙ sym c, b ∙ ap (λ x. x.2) p ∙ sym d)

  -- The answers to a sequence of messages, and what they do to the world, do not depend on whether
  -- the server is initialized, nor on what it knows of the client.
  pub handle_all-bare :
      (ms : List (ℕ × Message)) (s : Server R W T) (w : W)
      → ((handle_all ms s w).1 ≡ (handle_all ms (bare R W T s) w).1)
        × ((handle_all ms s w).2 ≡ (handle_all ms (bare R W T s) w).2)
  unfolding handle_all
  handle_all-bare [] s w = (refl, refl)
  handle_all-bare ((t, m) ∷ ms) s w =
      let (kept, server, world, answer) = handle_message-Steady R W T m t s w in
      let (a, b) =
        same_afterwards ms (handle_message R W T m t s w).0
          (handle_message R W T m t (bare R W T s) w).0 (handle_message R W T m t s w).1
          (handle_message R W T m t (bare R W T s) w).1 (handle_all-bare ms) server world in
      (a, cong_cons answer b)
