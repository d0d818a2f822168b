-- ===== src/Metaball/Defs.antt =====
-- app/ceremony/metaball.ts: the size of the drawing buffer, and the course of `createRenderer` as the
-- calls it makes on the WebGL context, which comes in as its answers. The shaders' text is not modelled.
use moltenpour.Prelude.{
  List, [], ◌∷◌, ◌++◌, Option, none, some, Bool, true, false, ◌||◌, if◌then◌else◌,
}
use moltenpour.Number.{Number, of_ℕ, round, min, max, ◌*ₙ◌, ◌<ₙ◌}

-- `devicePixelRatio || 1`: zero and NaN are falsy.
unfoldable pub pixel_ratio : Number → Number
pixel_ratio device_pixel_ratio =
    min
      (if of_ℕ 0 <ₙ device_pixel_ratio || device_pixel_ratio <ₙ of_ℕ 0
        then device_pixel_ratio
        else of_ℕ 1)
      (of_ℕ 2)

pub record Size : Type 0 where
  pub width : Number
  pub height : Number

-- `backingSize`, for a canvas of this client size.
unfoldable pub backing_size : Number → Number → Number → Size
backing_size device_pixel_ratio client_width client_height =
    let dpr = pixel_ratio device_pixel_ratio in
    record {
      width = max (of_ℕ 1) (round (client_width *ₙ dpr));
      height = max (of_ℕ 1) (round (client_height *ₙ dpr));
    }

-- How the context answers: whether it is there, and each object, status and
-- extension that it is asked for.
pub record Answers : Type 0 where
  pub context : Bool
  pub program : Bool
  pub vertex_created : Bool
  pub vertex_compiles : Bool
  pub fragment_created : Bool
  pub fragment_compiles : Bool
  pub links : Bool
  pub lose_extension : Bool

-- A call; that of a program says whether one was given.
pub data GlCall : Type 0 where
  create_program : Bool → GlCall
  create_shader : GlCall
  delete_shader : GlCall
  attach_shader : GlCall
  link_program : GlCall
  use_program : GlCall
  create_buffer : GlCall
  observe : GlCall
  viewport : Size → GlCall
  disconnect : GlCall
  delete_buffer : GlCall
  delete_program : GlCall
  lose_context : GlCall

-- A shader that is created and compiles, or the exception that `compile` throws; the calls made.
unfoldable pub compile : Bool → Bool → List GlCall × Bool
compile false compiles = (create_shader ∷ [], false)
compile true true = (create_shader ∷ [], true)
compile true false = (create_shader ∷ delete_shader ∷ [], false)

abbrev pub when : Bool → List GlCall → List GlCall
when true calls = calls
when false calls = []

-- The two shaders and the link, up to the first that fails.
unfoldable pub program_calls : Answers → List GlCall
program_calls gl =
    let vertex = compile gl.vertex_created gl.vertex_compiles in
    let fragment = compile gl.fragment_created gl.fragment_compiles in
    create_program gl.program
    ∷ when gl.program (
        vertex.0
        ++ when vertex.1
            (attach_shader ∷ fragment.0 ++ when fragment.1 (attach_shader ∷ link_program ∷ [])))

unfoldable pub all_of : List Bool → Bool
all_of [] = true
all_of (b ∷ bs) = if b then all_of bs else false

-- Whether there is a program to draw with.
unfoldable pub is_lit : Answers → Bool
is_lit gl = all_of (
    gl.context ∷ gl.program ∷ gl.vertex_created ∷ gl.vertex_compiles ∷ gl.fragment_created
    ∷ gl.fragment_compiles ∷ gl.links ∷ [])

-- The renderer: the size that it starts with, and whether its context can be released.
pub record Renderer : Type 0 where
  pub size : Size
  pub releases : Bool

-- `createRenderer`: the calls, and the renderer or null.
unfoldable pub create_renderer : Answers → Size → List GlCall × Option Renderer
create_renderer gl size =
    if is_lit gl
    then (
      program_calls gl ++ use_program ∷ create_buffer ∷ observe ∷ viewport size ∷ [],
      some (record { size = size; releases = gl.lose_extension }),
    )
    else (when gl.context (program_calls gl), none)

-- `dispose`: without the extension the optional call of `loseContext` is left out.
unfoldable pub dispose : Renderer → List GlCall
dispose r = disconnect ∷ delete_buffer ∷ delete_program ∷ when r.releases (lose_context ∷ [])

-- `attachCanvas` of app/ceremony/PourScreen.tsx: with a canvas, a renderer or none, and the vessel is
-- unlit exactly without one; without a canvas, the old renderer is disposed of.
pub record Lamp : Type 0 where
  pub calls : List GlCall
  pub renderer : Option Renderer
  pub unlit : Bool

abbrev pub disposing : Option Renderer → List GlCall
disposing none = []
disposing (some r) = dispose r

abbrev is_none : Option Renderer → Bool
is_none none = true
is_none (some r) = false

unfoldable pub attach_canvas : Option (Answers × Size) → Lamp → Lamp
attach_canvas none lamp = record lamp {
  calls = lamp.calls ++ disposing lamp.renderer;
  renderer = none;
}
attach_canvas (some (gl, size)) lamp =
    let made = create_renderer gl size in
    record { calls = lamp.calls ++ made.0; renderer = made.1; unlit = is_none made.1 }
