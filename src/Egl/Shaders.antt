-- ===== src/Egl/Shaders.antt =====
-- rust/subscriber/src/egl.rs: `compile_shader` and `link_program`, with the sources of the shaders.
use pub_sub_v4l2_dmabuf_wayl.Base.{ℕ, List, [], ◌∷◌, ◌++◌, if◌then◌else◌, codes}
use pub_sub_v4l2_dmabuf_wayl.Effect.{other, pure, throw, ◌>>=◌, ◌>>◌, state}
use pub_sub_v4l2_dmabuf_wayl.Platform.{Platform, Io, shader, program}
use pub_sub_v4l2_dmabuf_wayl.Egl.{Gpu, gl_calls, making, deleting, shader_source, attach_shader}
use pub_sub_v4l2_dmabuf_wayl.Egl as Egl

-- The texts, without the closing 0, which is not among the bytes that are passed.
abbrev pub vs : List ℕ
vs =
    codes "attribute vec2 a_pos;\n"
    ++ (codes "attribute vec2 a_uv;\n"
        ++ (codes "varying vec2 v_uv;\n"
            ++ (codes "void main() {\n"
                ++ (codes "    v_uv = a_uv;\n"
                    ++ (codes "    gl_Position = vec4(a_pos, 0.0, 1.0);\n" ++ codes "}\n")))))

abbrev pub fs_rgb : List ℕ
fs_rgb =
    codes "precision mediump float;\n"
    ++ (codes "varying vec2 v_uv;\n"
        ++ (codes "uniform sampler2D u_tex;\n"
            ++ codes "void main() { gl_FragColor = texture2D(u_tex, v_uv); }\n"))

abbrev pub fs_yuv : List ℕ
fs_yuv =
    codes "#extension GL_OES_EGL_image_external : require\n"
    ++ (codes "precision mediump float;\n"
        ++ (codes "varying vec2 v_uv;\n"
            ++ (codes "uniform samplerExternalOES u_tex;\n"
                ++ codes "void main() { gl_FragColor = texture2D(u_tex, v_uv); }\n")))

module _ (S : Platform) (G : Gpu S) where
  unfoldable pub check_shader : ℕ → Io S ℕ
  check_shader sh = do
    fine ← state (λ w. G.compile_status sh w.sys)
    if fine then pure sh else (deleting S G shader sh >> throw other)

  unfoldable pub compile_shader : ℕ → List ℕ → Io S ℕ
  unfolding check_shader
  compile_shader kind src = do
    sh ← making S G shader (G.create_shader kind)
    gl_calls S G (shader_source sh src ∷ Egl.compile_shader sh ∷ [])
    check_shader sh

  unfoldable pub check_program : ℕ → Io S ℕ
  check_program prog = do
    fine ← state (λ w. G.link_status prog w.sys)
    if fine then pure prog else (deleting S G program prog >> throw other)

  -- Once both shaders are there.
  unfoldable pub link_shaders : ℕ → ℕ → Io S ℕ
  unfolding check_program
  link_shaders v f = do
    prog ← making S G program G.create_program
    gl_calls S G (attach_shader prog v ∷ attach_shader prog f ∷ Egl.link_program prog ∷ [])
    deleting S G shader v
    deleting S G shader f
    check_program prog

  unfoldable pub link_program : List ℕ → List ℕ → Io S ℕ
  unfolding compile_shader link_shaders
  link_program vs_src fs_src = do
    v ← compile_shader G.egl.gl_vertex_shader vs_src
    f ← compile_shader G.egl.gl_fragment_shader fs_src
    link_shaders v f
