-- ===== src/Preview/Tests.antt =====
-- The theorems on the preview record at concrete inputs, and runs.
use mobile_webcam_bridge.Prelude.{◌≡◌, refl, true, some, [], ◌∷◌, arith, In}
use mobile_webcam_bridge.Preview.{Parsed, header, parse_header, lies, step_for}
use mobile_webcam_bridge.Preview.Lock.{
  Frame, World, copying, returned, publishable, begin, fill, finish, look, copy, check, Reach, here,
  next, begins, fills, finishes, looks, copies, checks,
}
use mobile_webcam_bridge.Preview.Lock.Runs.{created, latest-In, publish, latest-publish}

abbrev small : Parsed
small = record { seq = 6; width = 320; height = 180; len = 230400 }

small_fits : parse_header (header 6 320 180 230400) ≡ some small
unfolding parse_header header lies
small_fits = refl

-- The area of this shape wraps to zero.
abbrev huge : Parsed
huge = record { seq = 0; width = 2147483648; height = 2147483648; len = 0 }

huge_wraps : parse_header (header 0 2147483648 2147483648 0) ≡ some huge
unfolding parse_header header lies
huge_wraps = refl

full_hd_step : step_for 1920 ≡ 6
unfolding step_for
full_hd_step = refl

-- One pixel.
abbrev dot : Frame
dot = record { width = 1; height = 1; pixels = 9 ∷ 8 ∷ 7 ∷ 255 ∷ [] }

abbrev dot_parsed : Parsed
dot_parsed = record { seq = 2; width = 1; height = 1; len = 4 }

abbrev half_shown : World
half_shown = copy dot_parsed [] 2 (look (finish dot (fill dot 0 4 (begin dot (created 4)))))

abbrev shown : World
shown = check dot_parsed dot.pixels (copy dot_parsed (9 ∷ 8 ∷ []) 2 half_shown)

half_shown-Reach : Reach (created 4) half_shown
unfolding begin fill finish look copy publishable header parse_header lies
half_shown-Reach =
    next
      (next
        (next
          (next
            (next here (
              begins dot (record { width = omega arith; height = omega arith }) refl (omega arith)))
            (fills dot 0 4 refl))
          (finishes dot 4 refl (omega arith)))
        looks)
      (copies dot_parsed [] 2 refl)

shown-Reach : Reach (created 4) shown
unfolding begin fill finish look copy check publishable header parse_header lies
shown-Reach =
    next (next half_shown-Reach (copies dot_parsed (9 ∷ 8 ∷ []) 2 refl))
      (checks dot_parsed dot.pixels refl refl)

shown_dot : shown.reader ≡ returned (some dot)
unfolding begin fill finish look copy check publishable header parse_header lies
shown_dot = refl

latest-In_example : In dot shown.published
latest-In_example = latest-In 4 shown dot shown-Reach shown_dot

dot-publishable : publishable dot ≡ true
unfolding publishable
dot-publishable = refl

latest-publish_example :
    (p : Parsed) × ((look (publish dot (created 4))).reader ≡ copying p [])
    × ((copy p [] p.len (publish dot (created 4))).reader ≡ copying p dot.pixels)
    × ((check p dot.pixels (publish dot (created 4))).reader ≡ returned (some dot))
latest-publish_example =
    latest-publish dot (created 4) refl (omega arith) dot-publishable
      (record { width = omega arith; height = omega arith }) (omega arith) (omega arith)

-- A producer that opens the same record again counts from zero. A reader that was in the middle of a
-- copy then finds its sequence number again, over the bytes of two frames.
abbrev other_dot : Frame
other_dot = record { width = 1; height = 1; pixels = 1 ∷ 2 ∷ 3 ∷ 4 ∷ [] }

abbrev restarted : World
restarted = publish other_dot (record half_shown { seq = 0 })

restart_tears :
    (check dot_parsed (9 ∷ 8 ∷ 3 ∷ 4 ∷ []) (copy dot_parsed (9 ∷ 8 ∷ []) 2 restarted)).reader
    ≡ returned (some (record { width = 1; height = 1; pixels = 9 ∷ 8 ∷ 3 ∷ 4 ∷ [] }))
unfolding begin fill finish look copy check publishable header parse_header lies
restart_tears = refl
