-- ===== src/Overlay.antt =====
-- `WaylandOverlay` of platform/linux/overlay/wayland_overlay.cpp. What Wayland, memfd_create and mmap
-- give are arguments. A buffer is its pixels; `nullptr` with size 0 is the buffer without pixels.
pub mod Pixels
pub mod Painting
pub mod Filling
pub mod Mosaic
pub mod Screen
pub mod Rendering
use degoonification.Common.{
  ℕ, zero, suc, ◌-◌, ◌*◌, ◌/◌, ◌%◌, ◌^◌, Bool, true, false, not, ◌&&◌, ◌||◌, ◌==◌, ltb,
  if◌then◌else◌, Option, none, some, List, [], ◌∷◌, map, is_empty, length, replicate,
}
use degoonification.Common.Reads.{Reads, got, ◌>>=◌}
use degoonification.Float.{Float}
use degoonification.Boxes.{BoundingBox}
use degoonification.Video.{VideoFrame}
use degoonification.Overlay.Pixels.{OverlayConfig, rect_of, source_of, draw_rects}

pub record ShmBuffer : Type 0 where
  pub pixels : List ℕ
  pub busy : Bool

-- `Impl`; of the Wayland objects, whether they are there.
pub record Impl (F : Type 0) : Type 0 where
  pub compositor : Bool
  pub shm : Bool
  pub layer_shell : Bool
  pub surface : Bool
  pub width : ℕ
  pub height : ℕ
  pub configured : Bool
  pub buffer_0 : ShmBuffer
  pub buffer_1 : ShmBuffer
  pub current_buffer : ℕ
  pub last_rendered_boxes : List (BoundingBox F)

pub record WaylandOverlay (F : Type 0) : Type 0 where
  pub impl : Option (Impl F)
  pub config : OverlayConfig

abbrev pub no_buffer : ShmBuffer
no_buffer = record { pixels = []; busy = false }

-- The pixels that fit in `stride * height` bytes.
unfoldable pub allocate_shm_buffer : Bool → ℕ → ℕ → ShmBuffer → Bool × ShmBuffer
allocate_shm_buffer false width height buf = (false, buf)
allocate_shm_buffer true width height buf =
    (true, record { pixels = replicate (width * 4 % 2 ^ 32 * height / 4) 0; busy = false })

-- `wl_compositor_interface.name` and so on
pub data Interface : Type 0 where
  compositor shm layer_shell other : Interface

-- The events of the surface and its buffers.
pub data Event : Type 0 where
  configure : ℕ → ℕ → Event
  closed : Event
  release : ℕ → Event

module _ {F : Type 0} where
  abbrev pub new_impl : Impl F
  new_impl = record {
    compositor = false;
    shm = false;
    layer_shell = false;
    surface = false;
    width = 1920;
    height = 1080;
    configured = false;
    buffer_0 = no_buffer;
    buffer_1 = no_buffer;
    current_buffer = 0;
    last_rendered_boxes = [];
  }

  abbrev pub new_overlay : OverlayConfig → WaylandOverlay F
  new_overlay config = record { impl = none; config = config }

  unfoldable pub registry_global : Interface → Impl F → Impl F
  registry_global Interface.compositor i = record i { compositor = true }
  registry_global Interface.shm i = record i { shm = true }
  registry_global Interface.layer_shell i = record i { layer_shell = true }
  registry_global Interface.other i = i

  abbrev pub registry_globals : List Interface → Impl F → Impl F
  unfolding registry_global
  registry_globals [] i = i
  registry_globals (g ∷ gs) i = registry_globals gs (registry_global g i)

  unfoldable pub layer_surface_configure : ℕ → ℕ → Impl F → Impl F
  layer_surface_configure width height i =
      if ltb 0 width && ltb 0 height
      then record i { width = width; height = height; configured = true }
      else record i { configured = true }

  unfoldable pub layer_surface_closed : Impl F → Impl F
  layer_surface_closed i = record i { configured = false }

  unfoldable pub buffer_release : ℕ → Impl F → Impl F
  buffer_release zero i = record i { buffer_0 = record i.buffer_0 { busy = false } }
  buffer_release (suc n) i = record i { buffer_1 = record i.buffer_1 { busy = false } }

  unfoldable pub handle_event : Event → Impl F → Impl F
  unfolding layer_surface_configure layer_surface_closed buffer_release
  handle_event (Event.configure w h) i = layer_surface_configure w h i
  handle_event Event.closed i = layer_surface_closed i
  handle_event (Event.release n) i = buffer_release n i

  unfoldable pub handle_events : List Event → Impl F → Impl F
  unfolding handle_event
  handle_events [] i = i
  handle_events (e ∷ es) i = handle_events es (handle_event e i)

  -- Both buffers get the size of the surface; whether that succeeds is not looked at.
  unfoldable pub allocate_buffers : Bool → Bool → Impl F → Impl F
  unfolding allocate_shm_buffer
  allocate_buffers a b i = record i {
    buffer_0 = (allocate_shm_buffer a i.width i.height i.buffer_0).1;
    buffer_1 = (allocate_shm_buffer b i.width i.height i.buffer_1).1;
  }

-- What `init` is given: whether the display, the surface and the layer surface could be had, the
-- globals of the registry, the events before the buffers, and whether each buffer could be mapped.
pub record Display : Type 0 where
  pub connected : Bool
  pub globals : List Interface
  pub has_surface : Bool
  pub has_layer_surface : Bool
  pub events : List Event
  pub maps_0 : Bool
  pub maps_1 : Bool

module _ {F : Type 0} where
  abbrev init_impl : Display → Bool × Impl F
  init_impl display =
      let bound = registry_globals display.globals new_impl in
      let with_surface = record bound { surface = true } in
      if not display.connected
      then (false, new_impl)
      else if not (bound.compositor && bound.shm && bound.layer_shell)
      then (false, bound)
      else if not display.has_surface
      then (false, bound)
      else if not display.has_layer_surface
      then (false, with_surface)
      else (
        true,
        allocate_buffers display.maps_0 display.maps_1 (handle_events display.events with_surface),
      )

  unfoldable pub init : Display → WaylandOverlay F → Bool × WaylandOverlay F
  unfolding allocate_buffers handle_events registry_globals
  init display o = let r = init_impl display in (r.0, record o { impl = some r.1 })

  unfoldable pub dispatch_with : Option (Impl F) → List Event → WaylandOverlay F → WaylandOverlay F
  unfolding handle_events
  dispatch_with none events o = o
  dispatch_with (some i) events o = record o { impl = some (handle_events events i) }

  unfoldable pub dispatch_events : List Event → WaylandOverlay F → WaylandOverlay F
  unfolding dispatch_with
  dispatch_events events o = dispatch_with o.impl events o

  pub is_ready : WaylandOverlay F → Bool
  is_ready o = elim o.impl [ none ↦ false | some i ↦ i.configured ]

  pub screen_width : WaylandOverlay F → ℕ
  screen_width o = elim o.impl [ none ↦ 0 | some i ↦ i.width ]

  pub screen_height : WaylandOverlay F → ℕ
  screen_height o = elim o.impl [ none ↦ 0 | some i ↦ i.height ]

module _ {F : Type 0} ⦃f : Float F⦄ where
  -- The coordinates differ by more than 0.003.
  abbrev apart : F → F → Bool
  apart a b = f.lt (f.decimal 3 3) (f.abs (f.sub a b))

  unfoldable pub boxes_differ : List (BoundingBox F) → List (BoundingBox F) → Bool
  boxes_differ [] [] = false
  boxes_differ [] (b ∷ m) = true
  boxes_differ (a ∷ l) [] = true
  boxes_differ (a ∷ l) (b ∷ m) =
      let rest = boxes_differ l m in
      (apart a.x b.x || apart a.y b.y || apart a.width b.width || apart a.height b.height) || rest

  -- The buffer that is drawn next.
  abbrev pub next_buffer : Impl F → ShmBuffer
  next_buffer i = if 1 - i.current_buffer == 0 then i.buffer_0 else i.buffer_1

  abbrev pub with_next : List ℕ → Impl F → Impl F
  with_next pixels i =
      if 1 - i.current_buffer == 0
      then record i { current_buffer = 0; buffer_0 = record i.buffer_0 { pixels = pixels } }
      else record i { current_buffer = 1; buffer_1 = record i.buffer_1 { pixels = pixels } }

  -- The buffer is cleared, and the boxes are drawn.
  abbrev pub paint :
      OverlayConfig → Option VideoFrame → List (BoundingBox F) → Impl F → Reads (List ℕ)
  paint config source_frame boxes i =
      draw_rects config (source_of config source_frame) i.width
        (map (rect_of i.width i.height) boxes) (replicate (length (next_buffer i).pixels) 0)

  -- The call returns before it draws: the surface is not ready, or shows these boxes.
  abbrev pub is_idle : Option VideoFrame → List (BoundingBox F) → Impl F → Bool
  is_idle source_frame boxes i =
      not (i.surface && i.configured)
      || (is_empty boxes && is_empty i.last_rendered_boxes)
      || (not (boxes_differ boxes i.last_rendered_boxes)
          && elim source_frame [ none ↦ true | some frame ↦ false ])

  -- With the pixels that are committed to the surface, if any are.
  unfoldable pub render_impl :
      OverlayConfig
      → List (BoundingBox F)
      → Option VideoFrame
      → Impl F
      → Reads (Option (List ℕ) × Impl F)
  unfolding boxes_differ draw_rects
  render_impl config boxes source_frame i =
      if is_idle source_frame boxes i
      then got (none, i)
      else (paint config source_frame boxes i >>= λ pixels.
          got (some pixels, record (with_next pixels i) { last_rendered_boxes = boxes }))

  unfoldable pub render_with :
      Option (Impl F)
      → List (BoundingBox F)
      → Option VideoFrame
      → WaylandOverlay F
      → Reads (Option (List ℕ) × WaylandOverlay F)
  unfolding render_impl
  render_with none boxes source_frame o = got (none, o)
  render_with (some i) boxes source_frame o =
      render_impl o.config boxes source_frame i >>= λ r. got (r.0, record o { impl = some r.1 })

  unfoldable pub render_boxes :
      List (BoundingBox F)
      → Option VideoFrame
      → WaylandOverlay F
      → Reads (Option (List ℕ) × WaylandOverlay F)
  unfolding render_with
  render_boxes boxes source_frame o = render_with o.impl boxes source_frame o
